-- ===== src/Extract/Spans/Grounded.antt =====
-- Where a quote stands in its source, and what a refusal to say so means.
use yente.Prelude.{
  Text, ℕ, zero, suc, ◌≤◌, ◌<◌, ◌≡◌, refl, ap, subst, ◌⊎◌, Bool, true, false, Option, none, some,
  [], ◌∷◌, ltb, length, same, same_iff, arith, Bool-cases, inl, inr, Result, ok, err,
}
use yente.Graph.Consent.{contains, take_text, drop_text}
use yente.Store.Jobs.{starts_with}
use yente.Extract.Spans.{
  Divergence, no_foothold, forks, fork, fork_at, divergence_of, index_of, Error, incomplete_fact,
  unknown_source, evidence_too_short, not_a_whole_word, span_not_found, is_alphanumeric, is_word_at,
  word_hit, locate, hit_or_error, span_or_error,
}
use yente.Extract.Spans.Longest.{IsLongest, narrow-IsLongest}

occurs_anywhere : (text : Text) → contains [] text ≡ true
unfolding contains starts_with
occurs_anywhere [] = refl
occurs_anywhere (c ∷ cs) = refl

-- The number of characters that a report says agree.
abbrev pub agreed : Divergence → ℕ
agreed (no_foothold n) = n
agreed (forks n before quoted held) = n

agreed-fork : (haystack needle : Text) (n : ℕ) → agreed (fork haystack needle n) ≡ n
agreed-fork haystack needle n = ground arith

-- The search of a divergence ends, and it reports the longest beginning of the quote that occurs in the
-- source: that one does, and no longer one, and its length is the number that the report gives.
pub divergence_of-IsLongest :
    (haystack needle : Text)
    → (m : ℕ) × (divergence_of haystack needle ≡ some (fork haystack needle m))
      × IsLongest haystack needle m
      × (agreed (fork haystack needle m) ≡ m)
unfolding divergence_of take_text
divergence_of-IsLongest haystack needle =
    let (m, found, longest) =
      narrow-IsLongest haystack needle (length needle) 0 (length needle)
        (record {
          below = omega arith;
          at_most = omega arith;
          agrees = occurs_anywhere haystack;
          no_longer = λ k more le. absurd (omega arith);
        })
        (omega arith) in
    (m, ap (fork_at haystack needle) found, longest, agreed-fork haystack needle m)

index_of-found :
    (part text : Text) (i : ℕ)
    → index_of part text ≡ some i
    → starts_with part (drop_text i text) ≡ true
unfolding index_of drop_text
index_of-found part [] i h = ground arith
index_of-found part (c ∷ cs) zero h = ground arith
index_of-found part (c ∷ cs) (suc i) h = ground (arith, index_of-found part cs i)

index_of-missing : (part text : Text) → index_of part text ≡ none → contains part text ≡ false
unfolding index_of contains
index_of-missing part [] h = ground arith
index_of-missing part (c ∷ cs) h = ground (arith, index_of-missing part cs)

module _ (nfkc : Text → Text) (is_letter is_number : ℕ → Bool) where
  -- Whether a letter or a number stands before a place.
  abbrev pub preceded : Bool → ℕ → Text → Bool
  preceded behind zero text = behind
  preceded behind (suc i) [] = false
  preceded behind (suc i) (c ∷ cs) = preceded (is_alphanumeric nfkc is_letter is_number c) i cs

  -- The text stands there as a whole word.
  abbrev pub word_at : Bool → ℕ → Text → Text → Bool
  word_at behind i needle text =
      is_word_at nfkc is_letter is_number (preceded behind i text) needle (drop_text i text)

  word_hit-found :
      (behind : Bool) (needle text : Text) (i : ℕ)
      → word_hit nfkc is_letter is_number behind needle text ≡ some i
      → word_at behind i needle text ≡ true
  unfolding word_hit drop_text
  word_hit-found behind needle [] zero h = ground arith
  word_hit-found behind needle [] (suc i) h = absurd (ground arith)
  word_hit-found behind needle (c ∷ cs) zero h = ground arith
  word_hit-found behind needle (c ∷ cs) (suc i) h =
      ground (arith, word_hit-found (is_alphanumeric nfkc is_letter is_number c) needle cs i)

  word_hit-missing :
      (behind : Bool) (needle text : Text) (i : ℕ)
      → word_hit nfkc is_letter is_number behind needle text ≡ none
      → i ≤ length text
      → word_at behind i needle text ≡ false
  unfolding word_hit drop_text
  word_hit-missing behind needle [] zero h le = ground arith
  word_hit-missing behind needle [] (suc i) h le = absurd (omega arith)
  word_hit-missing behind needle (c ∷ cs) zero h le = ground arith
  word_hit-missing behind needle (c ∷ cs) (suc i) h le =
      ground (arith, word_hit-missing (is_alphanumeric nfkc is_letter is_number c) needle cs i)

  -- What a place, or a refusal to give one, says of the normal forms of source, quote and value.
  pub Located : ℕ → Text → Text → Text → Result Error ℕ → Type 0
  Located min_chars haystack needle own (ok i) =
      (starts_with needle (drop_text i haystack) ≡ true)
      × ((min_chars ≤ length needle) ⊎ ((needle ≡ own) × (word_at false i needle haystack ≡ true)))
  Located min_chars haystack needle own (err (evidence_too_short evidence)) =
      (length needle < min_chars) × (same needle own ≡ false)
  Located min_chars haystack needle own (err (not_a_whole_word cut)) =
      (length needle < min_chars)
      × (needle ≡ own)
      × ((i : ℕ) → i ≤ length haystack → word_at false i needle haystack ≡ false)
  Located min_chars haystack needle own (err (span_not_found cut d)) =
      (min_chars ≤ length needle)
      × (contains needle haystack ≡ false)
      × ((m : ℕ) × (d ≡ some (fork haystack needle m))
          × IsLongest haystack needle m
          × (agreed (fork haystack needle m) ≡ m))
  Located min_chars haystack needle own (err (incomplete_fact name)) = Bool.true ≡ false
  Located min_chars haystack needle own (err (unknown_source id)) = Bool.true ≡ false

  hit-Located :
      (min_chars : ℕ) (evidence haystack needle own : Text) (hit : Option ℕ)
      → word_hit nfkc is_letter is_number false needle haystack ≡ hit
      → length needle < min_chars
      → needle ≡ own
      → Located min_chars haystack needle own (hit_or_error nfkc is_letter is_number evidence hit)
  unfolding Located is_word_at
  hit-Located min_chars evidence haystack needle own none h short e =
      (short, e, λ i le. word_hit-missing false needle haystack i h le)
  hit-Located min_chars evidence haystack needle own (some i) h short e =
      let word = word_hit-found false needle haystack i h in (ground (arith, word), inr (e, word))

  span-Located :
      (min_chars : ℕ) (evidence haystack needle own : Text) (at : Option ℕ)
      → index_of needle haystack ≡ at
      → min_chars ≤ length needle
      → Located min_chars haystack needle own
          (span_or_error nfkc is_letter is_number evidence haystack needle at)
  unfolding Located
  span-Located min_chars evidence haystack needle own none h long =
      (long, index_of-missing needle haystack h, divergence_of-IsLongest haystack needle)
  span-Located min_chars evidence haystack needle own (some i) h long =
      (index_of-found needle haystack i h, inl long)

  pub locate-Located :
      (min_chars : ℕ) (evidence haystack needle own : Text)
      → Located min_chars haystack needle own
          (locate nfkc is_letter is_number min_chars evidence haystack needle own)
  unfolding locate Located
  locate-Located min_chars evidence haystack needle own =
      elim (Bool-cases (ltb (length needle) min_chars)) [
        | inr l ↦ subst (Located min_chars haystack needle own) (ground arith) (
            span-Located min_chars evidence haystack needle own (index_of needle haystack) refl
              (ground arith))
        | inl l ↦ elim (Bool-cases (same needle own)) [
          | inl s ↦ subst (Located min_chars haystack needle own) (ground arith) (
              hit-Located min_chars evidence haystack needle own
                (word_hit nfkc is_letter is_number false needle haystack) refl (ground arith)
                ((same_iff needle own).0 s))
          | inr s ↦
              let refused : Located min_chars haystack needle own
                  (err (evidence_too_short evidence)) =
                (ground arith, s) in
              let e : err (evidence_too_short evidence)
                  ≡ locate nfkc is_letter is_number min_chars evidence haystack needle own =
                ground arith in
              subst (Located min_chars haystack needle own) e refused
        ]
      ]
