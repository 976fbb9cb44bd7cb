-- ===== src/Domain/Matching/Overlap.antt =====
-- What a rule that overlaps means.
use yente.Prelude.{
  Text, ◌≡◌, refl, sym, ap, ◌∙◌, ◌↔◌, true, ◌||◌, List, [], ◌∷◌, codes, if◌then◌else◌, arith,
  includes, same, same_iff, same_refl, ok, Bool-cases, inl, inr,
}
use yente.Domain.Qualification.{Value, read_path, is_filled}
use yente.Domain.Matching.{
  Rule, Row, texts_of, without_repeats, put_text, sort_texts, canonical_values, shared,
  evaluate_rule,
}

includes-put_text :
    (x a : Text) (l : List Text) → includes x (put_text a l) ≡ (same x a || includes x l)
unfolding includes put_text
includes-put_text x a [] = refl
includes-put_text x a (b ∷ rest) = ground (arith, includes-put_text x a rest)

includes-sort_texts : (x : Text) (l : List Text) → includes x (sort_texts l) ≡ includes x l
unfolding includes sort_texts
includes-sort_texts x [] = refl
includes-sort_texts x (a ∷ rest) =
    ground (arith, includes-put_text x a (sort_texts rest), includes-sort_texts x rest)

includes-same : (x y : Text) (l : List Text) → same x y ≡ true → includes x l ≡ includes y l
includes-same x y l e = ap (λ t. includes t l) ((same_iff x y).0 e)

includes-without_repeats :
    (x : Text) (seen l : List Text)
    → (includes x (without_repeats seen l) || includes x seen) ≡ (includes x l || includes x seen)
unfolding includes without_repeats
includes-without_repeats x seen [] = refl
includes-without_repeats x seen (a ∷ rest) = ground (
  arith,
  includes-without_repeats x seen rest,
  includes-without_repeats x (a ∷ seen) rest,
  includes-same x a seen,
)

includes-canonical_values :
    (x : Text) (v : Value) → includes x (canonical_values v) ≡ includes x (texts_of v)
unfolding canonical_values includes
includes-canonical_values x v =
    includes-sort_texts x (without_repeats [] (texts_of v))
    ∙ ground (arith, includes-without_repeats x [] (texts_of v))

abbrev pub InBoth : List Text → List Text → Type 0
InBoth a b = (x : Text) × (includes x a ≡ true) × (includes x b ≡ true)

shared-InBoth : (a b : List Text) → is_filled (shared a b) ≡ true → InBoth a b
unfolding shared includes
shared-InBoth [] b h = absurd (ground arith)
shared-InBoth (x ∷ xs) b h = elim (Bool-cases (includes x b)) [
  | inl e ↦ (x, ground (arith, same_refl x), e)
  | inr e ↦ let (y, own, other) = shared-InBoth xs b (ground arith) in (y, ground arith, other)
]

is_filled-shared :
    (a b : List Text) (x : Text)
    → includes x a ≡ true
    → includes x b ≡ true
    → is_filled (shared a b) ≡ true
unfolding shared includes
is_filled-shared [] b x h k = absurd (ground arith)
is_filled-shared (y ∷ ys) b x h k = ground (arith, is_filled-shared ys b x, includes-same x y b)

abbrev pub values_at : Value → Text → List Text
values_at v path = texts_of (read_path v path)

abbrev own_values : Value → Rule → List Text
own_values member rule = canonical_values (read_path member rule.member_path)

abbrev other_values : Value → Rule → List Text
other_values opportunity rule = canonical_values (read_path opportunity rule.opportunity_path)

abbrev overlap_row : Rule → List Text → List Text → Row
overlap_row rule own other = record {
  id = rule.id;
  passed = is_filled (shared own other);
  matched_values = shared own other;
  contribution = if is_filled (shared own other) then rule.weight else 0;
}

-- A rule with the operator `overlap` always gives a row, and passes exactly if some value stands on
-- both sides, however often and in whatever order the values are given.
pub evaluate_rule_overlap :
    (member opportunity : Value) (rule : Rule)
    → rule.operator ≡ codes "overlap"
    → (row : Row) × (evaluate_rule member opportunity rule ≡ ok row)
      × ((row.passed ≡ true)
          ↔ InBoth
              (values_at member rule.member_path)
              (values_at opportunity rule.opportunity_path))
unfolding evaluate_rule
evaluate_rule_overlap member opportunity rule o = (
  overlap_row rule (own_values member rule) (other_values opportunity rule),
  ground (arith, same_iff rule.operator (codes "overlap")),
  (
    (λ h.
        let (x, a, b) = shared-InBoth (own_values member rule) (other_values opportunity rule) h in
        (x, sym (includes-canonical_values x _) ∙ a, sym (includes-canonical_values x _) ∙ b)),
    (λ (x, a, b).
        is_filled-shared (own_values member rule) (other_values opportunity rule) x
          (includes-canonical_values x _ ∙ a) (includes-canonical_values x _ ∙ b)),
  ),
)
