-- ===== src/Domain/Address/Laws.antt =====
-- One address has one normal form, whatever its case and the white space round it.
use yente.Prelude.{
  Text, ℕ, ◌≡◌, refl, sym, ap, ◌∙◌, inl, inr, some, [], ◌∷◌, map, arith, length, Bool-cases, suc,
  ◌↔◌, ◌≤◌,
}
use yente.Domain.Address.Defs.{
  is_space, lower, trim_start, trim_end, trim, last_index_of, normalize_address, is_empty,
}

is_space-lower : (c : ℕ) → is_space (lower c) ≡ is_space c
unfolding is_space lower
is_space-lower c = ground arith

lower_idem : (c : ℕ) → lower (lower c) ≡ lower c
unfolding lower
lower_idem c = ground arith

map-lower_idem : (s : Text) → map lower (map lower s) ≡ map lower s
map-lower_idem [] = refl
map-lower_idem (c ∷ s) = cc (lower_idem c, map-lower_idem s)

trim_start-lower : (s : Text) → trim_start (map lower s) ≡ map lower (trim_start s)
unfolding trim_start
trim_start-lower [] = refl
trim_start-lower (c ∷ s) = ground (arith, is_space-lower c, trim_start-lower s)

is_empty-lower : (s : Text) → is_empty (map lower s) ≡ is_empty s
is_empty-lower [] = refl
is_empty-lower (c ∷ s) = refl

trim_end-lower : (s : Text) → trim_end (map lower s) ≡ map lower (trim_end s)
unfolding trim_end
trim_end-lower [] = refl
trim_end-lower (c ∷ s) =
    ground (arith, is_space-lower c, trim_end-lower s, is_empty-lower (trim_end s))

trim-lower : (s : Text) → trim (map lower s) ≡ map lower (trim s)
unfolding trim
trim-lower s = rw (trim_start-lower s) (trim_end-lower (trim_start s))

trim_start_idem : (s : Text) → trim_start (trim_start s) ≡ trim_start s
unfolding trim_start
trim_start_idem [] = refl
trim_start_idem (c ∷ s) = ground (arith, trim_start_idem s)

trim_end_idem : (s : Text) → trim_end (trim_end s) ≡ trim_end s
unfolding trim_end
trim_end_idem [] = refl
trim_end_idem (c ∷ s) = ground (arith, trim_end_idem s)

length-trim_start-le : (s : Text) → length (trim_start s) ≤ length s
unfolding trim_start
length-trim_start-le [] = omega arith
length-trim_start-le (c ∷ s) = ground (arith, length-trim_start-le s)

-- Trimming the end of a text that starts with no space leaves its start.
trim_start-trim_end : (s : Text) → trim_start s ≡ s → trim_start (trim_end s) ≡ trim_end s
unfolding trim_start trim_end
trim_start-trim_end [] e = refl
trim_start-trim_end (c ∷ s) e = elim (Bool-cases (is_space c)) [
  | inl space ↦ absurd (ground (arith, length-trim_start-le s, ap length e))
  | inr letter ↦ ground arith
]

trim_idem : (s : Text) → trim (trim s) ≡ trim s
unfolding trim
trim_idem s =
    rw (trim_start-trim_end (trim_start s) (trim_start_idem s)) (trim_end_idem (trim_start s))

length-lower : (s : Text) → length (map lower s) ≡ length s
length-lower [] = refl
length-lower (c ∷ s) = ap suc (length-lower s)

lower-at : (c : ℕ) → (lower c ≡ b'@') ↔ (c ≡ b'@')
unfolding lower
lower-at c = ((λ h. ground arith), (λ h. ground arith))

last_index_of-lower : (s : Text) → last_index_of b'@' (map lower s) ≡ last_index_of b'@' s
unfolding last_index_of
last_index_of-lower [] = refl
last_index_of-lower (c ∷ s) = ground (arith, lower-at c, last_index_of-lower s)

-- The case of an address does not matter to its normal form.
pub normalize_address-lower : (a : Text) → normalize_address (map lower a) ≡ normalize_address a
unfolding normalize_address
normalize_address-lower a =
    rw (trim-lower a, last_index_of-lower (trim a), length-lower (trim a), map-lower_idem (trim a))

-- Nor does the white space round it.
pub normalize_address-trim : (a : Text) → normalize_address (trim a) ≡ normalize_address a
unfolding normalize_address
normalize_address-trim a = rw trim_idem

normal_form : (a : Text) {b : Text} → normalize_address a ≡ some b → b ≡ map lower (trim a)
unfolding normalize_address
normal_form a e = ground arith

-- A normal form is its own normal form.
pub normalize_address_idem :
    (a : Text) {b : Text} → normalize_address a ≡ some b → normalize_address b ≡ some b
normalize_address_idem a {b} e =
    ap normalize_address (normal_form a e)
    ∙ normalize_address-lower (trim a)
    ∙ normalize_address-trim a
    ∙ e

normalize_address-lower-trim :
    (a : Text) → normalize_address (map lower (trim a)) ≡ normalize_address a
normalize_address-lower-trim a = normalize_address-lower (trim a) ∙ normalize_address-trim a

-- Of an address with the normal form `x`, exactly those texts are other spellings which differ from
-- it only in case and in the white space round it.
pub normalize_address-same :
    (a b : Text) {x : Text}
    → normalize_address a ≡ some x
    → (normalize_address b ≡ some x) ↔ (map lower (trim b) ≡ map lower (trim a))
normalize_address-same a b {x} e = (
  (λ h. sym (normal_form b h) ∙ normal_form a e),
  (λ h.
      sym (normalize_address-lower-trim b)
      ∙ ap normalize_address h
      ∙ normalize_address-lower-trim a
      ∙ e),
)
