-- ===== src/Extract/Spans/Answered.antt =====
-- What stands behind a fact that was verified, and behind each refusal.
use yente.Prelude.{
  Text, ℕ, ◌≡◌, refl, subst, ◌⊎◌, Bool, false, Option, none, some, List, [], ◌∷◌, codes, lookup,
  same, truthy, arith, inl, inr, Result, ok, err, ◌>>=◌,
}
use yente.Extract.Spans.{
  Fact, Verified, Error, incomplete_fact, unknown_source, required, or_error,
  normalise_for_grounding, verify_fact,
}
use yente.Extract.Spans.Grounded.{Located, locate-Located}

bind_outcome {ℓ κ μ ν} :
    {E : Type μ} {A : Type ℓ} {B : Type κ} (P : Result E B → Type ν) (m : Result E A)
    (k : A → Result E B)
    → ((a : A) → m ≡ ok a → P (k a))
    → ((e : E) → m ≡ err e → P (err e))
    → P (m >>= k)
bind_outcome P (ok a) k f g = f a refl
bind_outcome P (err e) k f g = g e refl

module _ (nfkc : Text → Text) (is_letter is_number : ℕ → Bool) where
  -- The fact states these, and the source is supplied under its id.
  pub record Cites (f : Fact) (sources : List (Text × Text))
      (field value source_id evidence source : Text) : Type 0 where
    pub states_field : f.field ≡ some field
    pub states_value : f.value ≡ some value
    pub states_source : f.source_id ≡ some source_id
    pub states_evidence : f.evidence ≡ some evidence
    pub supplied : lookup source_id sources ≡ some source

  -- A place in the source of such a fact, or a refusal to give one.
  abbrev pub Placed : ℕ → Text → Text → Text → Result Error ℕ → Type 0
  Placed min_chars source evidence value r =
      Located nfkc is_letter is_number min_chars
        (normalise_for_grounding nfkc is_letter is_number source)
        (normalise_for_grounding nfkc is_letter is_number evidence)
        (normalise_for_grounding nfkc is_letter is_number value) r

  abbrev pub parts : Fact → List (Text × Option Text)
  parts f =
      (codes "field", f.field)
      ∷ (codes "value", f.value)
      ∷ (codes "source_id", f.source_id)
      ∷ (codes "evidence", f.evidence)
      ∷ []

  pub IsAnswered : ℕ → Fact → List (Text × Text) → Result Error Verified → Type 0
  IsAnswered min_chars f sources (ok v) =
      (source : Text) × Cites f sources v.field v.value v.source_id v.evidence source
      × Placed min_chars source v.evidence v.value (ok v.offset)
      × (v.explicit ≡ f.explicit)
  IsAnswered min_chars f sources (err e) =
      ((name : Text) × (o : Option Text) × (e ≡ incomplete_fact name)
        × (lookup name (parts f) ≡ some o)
        × (truthy o ≡ false))
      ⊎ (((id : Text) × (e ≡ unknown_source id)
            × (f.source_id ≡ some id)
            × (lookup id sources ≡ none))
          ⊎ ((field : Text) × (value : Text) × (id : Text) × (evidence : Text) × (source : Text)
              × Cites f sources field value id evidence source
              × Placed min_chars source evidence value (err e)))

  -- Whether a fact is explicit is not touched.
  pub IsAnswered-explicit :
      (min_chars : ℕ) (f : Fact) (sources : List (Text × Text)) (v : Verified)
      → IsAnswered min_chars f sources (ok v)
      → v.explicit ≡ f.explicit
  unfolding IsAnswered
  IsAnswered-explicit min_chars f sources v (source, cites, placed, e) = e

  required-ok : (name : Text) (o : Option Text) (t : Text) → required name o ≡ ok t → o ≡ some t
  unfolding required
  required-ok name none t h = absurd (ground arith)
  required-ok name (some []) t h = absurd (ground arith)
  required-ok name (some (c ∷ cs)) t h = ground arith

  required-err :
      (name : Text) (o : Option Text) (e : Error)
      → required name o ≡ err e
      → (e ≡ incomplete_fact name) × (truthy o ≡ false)
  unfolding required
  required-err name none e h = ground arith
  required-err name (some []) e h = ground arith
  required-err name (some (c ∷ cs)) e h = absurd (ground arith)

  or_error-ok : (e : Error) (o : Option Text) (t : Text) → or_error e o ≡ ok t → o ≡ some t
  or_error-ok e none t h = absurd (ground arith)
  or_error-ok e (some s) t h = ground arith

  or_error-err : (e x : Error) (o : Option Text) → or_error e o ≡ err x → (x ≡ e) × (o ≡ none)
  or_error-err e x none h = ground arith
  or_error-err e x (some s) h = absurd (ground arith)

  module _ (min_chars : ℕ) (f : Fact) (sources : List (Text × Text)) where
    lacks :
        (name : Text) (o : Option Text) (e : Error)
        → required name o ≡ err e
        → lookup name (parts f) ≡ some o
        → IsAnswered min_chars f sources (err e)
    unfolding IsAnswered
    lacks name o e h p =
        let (named, blank) = required-err name o e h in inl (name, o, named, p, blank)

  -- Every fact gets an answer that is right. One that is verified states all four parts, its source was
  -- supplied, and the normal form of its quote stands in that of the source at the offset, where a quote
  -- below the floor is its value itself, as a whole word. A fact that is refused lacks the part that is
  -- named, or cites a source that was not supplied, or has a short quote that is not its value or is
  -- nowhere a whole word, or its quote is nowhere in the source, and the report of how far it agrees is
  -- exact.
  pub verify_fact-IsAnswered :
      (min_chars : ℕ) (f : Fact) (sources : List (Text × Text))
      → IsAnswered min_chars f sources (verify_fact nfkc is_letter is_number min_chars f sources)
  unfolding verify_fact IsAnswered lookup same
  verify_fact-IsAnswered min_chars f sources =
      let P = IsAnswered min_chars f sources in
      bind_outcome P (required (codes "field") f.field) _
        (λ field h₁.
          bind_outcome P (required (codes "value") f.value) _
            (λ value h₂.
              bind_outcome P (required (codes "source_id") f.source_id) _
                (λ id h₃.
                  bind_outcome P (required (codes "evidence") f.evidence) _
                    (λ evidence h₄.
                      bind_outcome P (or_error (unknown_source id) (lookup id sources)) _
                        (λ source h₅.
                          let cites : Cites f sources field value id evidence source = record {
                            states_field = required-ok (codes "field") f.field field h₁;
                            states_value = required-ok (codes "value") f.value value h₂;
                            states_source = required-ok (codes "source_id") f.source_id id h₃;
                            states_evidence = required-ok (codes "evidence") f.evidence evidence h₄;
                            supplied =
                                or_error-ok (unknown_source id) (lookup id sources) source h₅;
                          } in
                          let located =
                            locate-Located nfkc is_letter is_number min_chars evidence
                              (normalise_for_grounding nfkc is_letter is_number source)
                              (normalise_for_grounding nfkc is_letter is_number evidence)
                              (normalise_for_grounding nfkc is_letter is_number value) in
                          bind_outcome P _ _
                            (λ at h₆. (
                              source,
                              cites,
                              subst (Placed min_chars source evidence value) h₆ located,
                              refl,
                            ))
                            (λ e h₆. inr (
                              inr (
                                field,
                                value,
                                id,
                                evidence,
                                source,
                                cites,
                                subst (Placed min_chars source evidence value) h₆ located,
                              ))))
                        (λ e h₅.
                          let (named, missing) =
                            or_error-err (unknown_source id) e (lookup id sources) h₅ in
                          inr (
                            inl (
                              id,
                              named,
                              required-ok (codes "source_id") f.source_id id h₃,
                              missing,
                            ))))
                    (λ e h₄. lacks min_chars f sources (codes "evidence") f.evidence e h₄ refl))
                (λ e h₃. lacks min_chars f sources (codes "source_id") f.source_id e h₃ refl))
            (λ e h₂. lacks min_chars f sources (codes "value") f.value e h₂ refl))
        (λ e h₁. lacks min_chars f sources (codes "field") f.field e h₁ refl)
