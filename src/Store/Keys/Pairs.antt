-- ===== src/Store/Keys/Pairs.antt =====
-- One match has one key, from whichever side it is proposed.
use yente.Prelude.{Text, ◌≡◌, refl, true, [], ◌∷◌, same, same_iff, arith, inl, inr, ◌⊎◌}
use yente.Domain.Matching.{text_leb}
use yente.Store.Keys.{Parts, segment, match_key, pair_key, lower_of, upper_of}

one_order : (a b : Text) → (text_leb a b ≡ true) ⊎ (text_leb b a ≡ true)
unfolding text_leb
one_order [] b = inl refl
one_order (x ∷ xs) [] = inr refl
one_order (x ∷ xs) (y ∷ ys) = ground (arith, one_order xs ys)

both_orders : (a b : Text) → text_leb a b ≡ true → text_leb b a ≡ true → a ≡ b
unfolding text_leb
both_orders [] [] h k = refl
both_orders [] (y ∷ ys) h k = absurd (ground arith)
both_orders (x ∷ xs) [] h k = absurd (ground arith)
both_orders (x ∷ xs) (y ∷ ys) h k = ground (arith, both_orders xs ys)

lower_of-swap : (a b : Text) → lower_of a b ≡ lower_of b a
lower_of-swap a b = ground (arith, one_order a b, both_orders a b)

upper_of-swap : (a b : Text) → upper_of a b ≡ upper_of b a
upper_of-swap a b = ground (arith, one_order a b, both_orders a b)

same-swap : (a b : Text) → same a b ≡ same b a
same-swap a b = ground (arith, same_iff a b, same_iff b a)

module _ (digest : Text → Text) where
  pair_key-swap : (p : Parts) (a b : Text) → pair_key digest p a b ≡ pair_key digest p b a
  pair_key-swap p a b = ground (arith, lower_of-swap a b, upper_of-swap a b, same-swap a b)

  -- The key of a match does not depend on which of its two members is named first.
  pub match_key-swap :
      (p : Parts) (a b : Text)
      → match_key digest (record p { member_ids = a ∷ b ∷ [] })
        ≡ match_key digest (record p { member_ids = b ∷ a ∷ [] })
  unfolding match_key
  match_key-swap p a b = pair_key-swap p (segment digest a) (segment digest b)
