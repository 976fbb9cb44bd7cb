-- ===== src/Intelligence/Bound/Excerpt.antt =====
-- What a model reads of a source.
use yente.Prelude.{
  Text, ℕ, zero, suc, ◌+◌, ◌-◌, ◌≤◌, ◌<◌, ◌≡◌, refl, sym, ap, subst, ◌∙◌, ◌⊎◌, inl, inr, Bool, true,
  false, Option, List, [], ◌∷◌, ◌++◌, leb, length, arith, Bool-cases,
}
use yente.Graph.Consent.{take_text, drop_text}
use yente.Intelligence.Bound.{
  Bounded, Source, BoundedSource, head_chars, whole, string_of, marker, excerpt, bound_source,
  bound_all, bound_sources,
}

take_text-drop_text : (n : ℕ) (t : Text) → take_text n t ++ drop_text n t ≡ t
unfolding take_text drop_text
take_text-drop_text zero t = refl
take_text-drop_text (suc n) [] = refl
take_text-drop_text (suc n) (c ∷ cs) = ap (λ l. c ∷ l) (take_text-drop_text n cs)

drop_text-nil : (n : ℕ) → drop_text n [] ≡ []
unfolding drop_text
drop_text-nil zero = refl
drop_text-nil (suc n) = refl

drop_text-add : (a b : ℕ) (t : Text) → drop_text b (drop_text a t) ≡ drop_text (a + b) t
unfolding drop_text
drop_text-add zero b t = ap (λ n. drop_text n t) (omega arith)
drop_text-add (suc a) b [] = drop_text-nil b ∙ sym (drop_text-nil (suc a + b))
drop_text-add (suc a) b (c ∷ cs) =
    let next : suc (a + b) ≡ suc a + b = omega arith in
    drop_text-add a b cs ∙ ap (λ n. drop_text n (c ∷ cs)) next

length-take_text : (n : ℕ) (t : Text) → n ≤ length t → length (take_text n t) ≡ n
unfolding take_text
length-take_text zero t le = refl
length-take_text (suc n) [] le = absurd (omega arith)
length-take_text (suc n) (c ∷ cs) le = ap suc (length-take_text n cs (omega arith))

length-drop_text : (n : ℕ) (t : Text) → length (drop_text n t) ≡ length t - n
unfolding drop_text
length-drop_text zero t = omega arith
length-drop_text (suc n) [] = omega arith
length-drop_text (suc n) (c ∷ cs) = length-drop_text n cs ∙ omega arith

pub total_chars : List Source → ℕ
total_chars [] = 0
total_chars (s ∷ rest) = length (string_of s.text) + total_chars rest

pub total_kept : List BoundedSource → ℕ
total_kept [] = 0
total_kept (b ∷ rest) = length b.text + total_kept rest

module _ (to_locale : ℕ → Text) where
  -- The source as it is; or its beginning and its end, as long as the limit in all, and between them a
  -- note of how many characters are left out, which are those in between.
  pub record IsExcerpt (max_chars : ℕ) (source : Text) (b : Bounded) : Type 0 where
    pub beginning : Text
    pub gap : Text
    pub ending : Text
    pub parts : source ≡ beginning ++ (gap ++ ending)
    pub reads : b.text ≡ beginning ++ (marker to_locale (length gap) ++ ending)
    pub as_long : length beginning + length ending ≡ max_chars
    pub says_so : b.truncated ≡ true
    pub counts :
        (b.kept_chars ≡ max_chars)
        × (b.dropped_chars ≡ length gap)
        × (b.original_chars ≡ length source)

  abbrev pub Reads : ℕ → Text → Bounded → Type 0
  Reads max_chars source b =
      ((length source ≤ max_chars) × (b ≡ whole source))
      ⊎ ((max_chars < length source) × IsExcerpt max_chars source b)

  excerpt-IsExcerpt :
      (max_chars : ℕ) (source : Text)
      → max_chars < length source
      → IsExcerpt max_chars source (excerpt to_locale max_chars source)
  excerpt-IsExcerpt m source long =
      let h = head_chars m in
      let n = length source in
      let rest = drop_text h source in
      let skipped = n - m in
      let at : drop_text skipped rest ≡ drop_text (n - (m - h)) source =
        drop_text-add h skipped source ∙ ap (λ k. drop_text k source) (omega arith) in
      let rest_long : length rest ≡ n - h = length-drop_text h source in
      let gap_long : length (take_text skipped rest) ≡ n - m =
        length-take_text skipped rest (omega (arith, rest_long)) in
      record {
        beginning = take_text h source;
        gap = take_text skipped rest;
        ending = drop_text (n - (m - h)) source;
        parts =
            sym (take_text-drop_text h source)
            ∙ ap (λ l. take_text h source ++ l) (sym (take_text-drop_text skipped rest))
            ∙ ap (λ l. take_text h source ++ (take_text skipped rest ++ l)) at;
        reads =
            ap (λ k. take_text h source ++ (marker to_locale k ++ drop_text (n - (m - h)) source))
              (sym gap_long);
        as_long =
            omega (
              arith,
              length-take_text h source (omega arith),
              length-drop_text (n - (m - h)) source,
            );
        says_so = refl;
        counts = (refl, sym gap_long, refl);
      }

  bound_source-Reads :
      (max_chars : ℕ) (text : Option Text)
      → Reads max_chars (string_of text) (bound_source to_locale max_chars text)
  unfolding bound_source
  bound_source-Reads m text = elim (Bool-cases (leb (length (string_of text)) m)) [
    | inl t ↦ inl (ground (arith, t), ground (arith, t))
    | inr t ↦
        let cut : excerpt to_locale m (string_of text) ≡ bound_source to_locale m text =
          ground (arith, t) in
        inr (
          ground (arith, t),
          subst (IsExcerpt m (string_of text)) cut
              (excerpt-IsExcerpt m (string_of text) (ground (arith, t))),
        )
  ]

  -- The sources and what was made of them, one for one.
  pub AllRead : ℕ → List Source → List BoundedSource → Type 0
  AllRead m [] [] = Unit {0}
  AllRead m (s ∷ rest) (b ∷ others) =
      (b.id ≡ s.id)
      × ((r : Bounded) × (r.text ≡ b.text)
          × (r.truncated ≡ b.truncated)
          × Reads m (string_of s.text) r)
      × AllRead m rest others
  AllRead m _ _ = Bool.true ≡ false

  Reads-original : (m : ℕ) (t : Text) (b : Bounded) → Reads m t b → b.original_chars ≡ length t
  Reads-original m t b (inl (short, e)) = ap (λ (x : Bounded). x.original_chars) e
  Reads-original m t b (inr (long, x)) = x.counts.2

  all_read :
      (m : ℕ) (sources : List Source) → AllRead m sources (bound_all to_locale m sources).sources
  unfolding bound_all AllRead
  all_read m [] = tt
  all_read m (s ∷ rest) = (
    refl,
    (bound_source to_locale m s.text, refl, refl, bound_source-Reads m s.text),
    all_read m rest,
  )

  sums :
      (m : ℕ) (sources : List Source)
      → ((bound_all to_locale m sources).original_chars ≡ total_chars sources)
        × ((bound_all to_locale m sources).kept_chars
            ≡ total_kept (bound_all to_locale m sources).sources)
  unfolding bound_all total_chars total_kept
  sums m [] = (refl, refl)
  sums m (s ∷ rest) =
      let (original, kept) = sums m rest in
      (
        omega (
          arith,
          original,
          Reads-original m (string_of s.text) (bound_source to_locale m s.text)
              (bound_source-Reads m s.text),
        ),
        omega (arith, kept),
      )

  -- Of each source a model reads all, if it is within the limit, and else its beginning and its end, as long
  -- as the limit in all, with a note between them of how many characters are left out, which are exactly
  -- those in between. The report adds up what the sources had and what is sent.
  pub bound_sources-AllRead :
      (max_chars : ℕ) (sources : List Source)
      → AllRead max_chars sources (bound_sources to_locale max_chars sources).0
        × ((bound_sources to_locale max_chars sources).1.original_chars ≡ total_chars sources)
        × ((bound_sources to_locale max_chars sources).1.kept_chars
            ≡ total_kept (bound_sources to_locale max_chars sources).0)
  unfolding bound_sources
  bound_sources-AllRead m sources = (all_read m sources, (sums m sources).0, (sums m sources).1)
