-- ===== src/Store/Cells/Turn.antt =====
-- No row is passed over: where a list in the order of a time is cut, the rows that are kept come first.
use yente.Prelude.{
  Text, ℕ, zero, suc, ◌≤◌, ◌≡◌, refl, sym, ap, subst, ◌⊎◌, inl, inr, some, List, [], ◌∷◌, arith,
  leb, length, lookup, same, same_iff, Bool-cases,
}
use yente.Store.Cells.Order.{slice, AllRows, put_in_order, oldest_first, IsOrderedFrom}

module _ {R : Type 0} where
  -- One of the rows is this one.
  pub data RowIn : Text × R → List (Text × R) → Type 0 where
    here : {a : Text × R} {l : List (Text × R)} → RowIn a (a ∷ l)
    there : {a b : Text × R} {l : List (Text × R)} → RowIn a l → RowIn a (b ∷ l)

  found_here :
      (id k : Text) (r s : R) (l : List (Text × R))
      → k ≡ id
      → some s ≡ some r
      → RowIn (id, r) ((k, s) ∷ l)
  found_here id k r s l p q =
      let e : (k, s) ≡ (id, r) = cc in subst (λ b. RowIn (id, r) (b ∷ l)) (sym e) here

  pub lookup-RowIn :
      (id : Text) (r : R) (l : List (Text × R)) → lookup id l ≡ some r → RowIn (id, r) l
  unfolding lookup
  lookup-RowIn id r [] e = cc
  lookup-RowIn id r ((k, s) ∷ l) e = elim (Bool-cases (same k id)) [
    | inl t ↦ found_here id k r s l ((same_iff k id).0 t) (ground arith)
    | inr f ↦ there (lookup-RowIn id r l (ground arith))
  ]

module _ {R : Type 0} (time : R → ℕ) where
  put_here : (a : Text × R) (l : List (Text × R)) → RowIn a (put_in_order time a l)
  unfolding put_in_order
  put_here a [] = here
  put_here a (b ∷ rest) = elim (Bool-cases (leb (time a.1) (time b.1))) [
    | inl t ↦ rw t here
    | inr f ↦ rw f (there (put_here a rest))
  ]

  put_there : (a b : Text × R) (l : List (Text × R)) → RowIn a l → RowIn a (put_in_order time b l)
  unfolding put_in_order
  put_there a b [] m = elim m [ ]
  put_there a b (c ∷ rest) here = elim (Bool-cases (leb (time b.1) (time c.1))) [
    | inl t ↦ rw t (there here)
    | inr f ↦ rw f here
  ]
  put_there a b (c ∷ rest) (there m) = elim (Bool-cases (leb (time b.1) (time c.1))) [
    | inl t ↦ rw t (there (there m))
    | inr f ↦ rw f (there (put_there a b rest m))
  ]

  pub RowIn-oldest_first :
      (a : Text × R) (l : List (Text × R)) → RowIn a l → RowIn a (oldest_first time l)
  unfolding oldest_first
  RowIn-oldest_first a [] m = elim m [ ]
  RowIn-oldest_first a (b ∷ l) here = put_here a (oldest_first time l)
  RowIn-oldest_first a (b ∷ l) (there m) =
      put_there a b (oldest_first time l) (RowIn-oldest_first a l m)

  ordered_before :
      (t : ℕ) (a : Text × R) (l : List (Text × R))
      → IsOrderedFrom time t l
      → RowIn a l
      → t ≤ time a.1
  unfolding IsOrderedFrom
  ordered_before t a [] o m = elim m [ ]
  ordered_before t a (b ∷ l) o here = o.0
  ordered_before t a (b ∷ l) o (there m) = omega (arith, o.0, ordered_before (time b.1) a l o.1 m)

  -- A row that a cut leaves out finds it full, of rows that are no later.
  abbrev pub HasTurn : ℕ → Text × R → List (Text × R) → Type 0
  HasTurn n a l = RowIn a l ⊎ ((length l ≡ n) × AllRows (λ b. time b.1 ≤ time a.1) l)

  pub slice-HasTurn :
      (n t : ℕ) (a : Text × R) (l : List (Text × R))
      → IsOrderedFrom time t l
      → RowIn a l
      → HasTurn n a (slice n l)
  unfolding slice AllRows IsOrderedFrom
  slice-HasTurn zero t a [] o m = elim m [ ]
  slice-HasTurn (suc n) t a [] o m = elim m [ ]
  slice-HasTurn zero t a (b ∷ l) o m = inr (refl, tt)
  slice-HasTurn (suc n) t a (b ∷ l) o here = inl here
  slice-HasTurn (suc n) t a (b ∷ l) o (there m) = elim (slice-HasTurn n (time b.1) a l o.1 m) [
    | inl i ↦ inl (there i)
    | inr (e, all) ↦ inr (ap suc e, (ordered_before (time b.1) a l o.1 m, all))
  ]
