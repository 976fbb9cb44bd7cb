-- ===== src/Store/Cells/Sums.antt =====
-- Sums over the ids of a collection, in whatever order a query returns them.
use yente.Prelude.{
  Text, ℕ, ◌+◌, ◌≡◌, refl, ap, ◌∙◌, true, false, Option, some, List, [], ◌∷◌, includes, same,
  same_iff, same_refl, if◌then◌else◌, arith, lookup, insert, lookup-insert, Bool-cases, inl, inr,
}
use yente.Store.Cells.{Engine}
use yente.Store.Cells.Laws.{ids_of, includes-ids_of}

unfoldable pub sum : (Text → ℕ) → List Text → ℕ
sum f [] = 0
sum f (x ∷ xs) = f x + sum f xs

unfoldable pub IsDistinct : List Text → Type 0
IsDistinct [] = Unit {0}
IsDistinct (x ∷ xs) = (includes x xs ≡ false) × IsDistinct xs

unfoldable pub drop_text_of : Text → List Text → List Text
drop_text_of k [] = []
drop_text_of k (x ∷ xs) = let rest = drop_text_of k xs in if same x k then rest else x ∷ rest

includes_at : (x k : Text) (l : List Text) → same x k ≡ true → includes x l ≡ includes k l
includes_at x k l e = ap (λ t. includes t l) ((same_iff x k).0 e)

pub includes-drop_text_of :
    (j k : Text) (l : List Text)
    → includes j (drop_text_of k l) ≡ (if same j k then false else includes j l)
unfolding includes drop_text_of
includes-drop_text_of j k [] = ground arith
includes-drop_text_of j k (x ∷ xs) =
    ground
      (arith, includes-drop_text_of j k xs, same_iff x k, same_iff j k, same_iff j x, same_refl k)

IsDistinct-drop_text_of : (k : Text) (l : List Text) → IsDistinct l → IsDistinct (drop_text_of k l)
unfolding IsDistinct drop_text_of
IsDistinct-drop_text_of k [] h = tt
IsDistinct-drop_text_of k (x ∷ xs) h =
    ground (arith, IsDistinct-drop_text_of k xs, includes-drop_text_of x k xs)

drop_absent : (k : Text) (l : List Text) → includes k l ≡ false → drop_text_of k l ≡ l
unfolding drop_text_of includes
drop_absent k [] h = refl
drop_absent k (x ∷ xs) h = ground (arith, drop_absent k xs, same_iff x k, same_iff k x)

sum_step :
    (f : Text → ℕ) (k x : Text) (xs : List Text)
    → includes x xs ≡ false
    → includes k (x ∷ xs) ≡ true
    → (includes k xs ≡ true → sum f xs ≡ f k + sum f (drop_text_of k xs))
    → sum f (x ∷ xs) ≡ f k + sum f (drop_text_of k (x ∷ xs))
unfolding sum drop_text_of includes
sum_step f k x xs new h ih = elim (Bool-cases (same x k)) [
  | inl e ↦
      let at : x ≡ k = (same_iff x k).0 e in
      ground (arith, ap f at, drop_absent k xs, includes_at x k xs e)
  | inr e ↦ ground (arith, same_iff x k, same_iff k x, ih)
]

-- One summand taken out.
pub sum-drop_text_of :
    (f : Text → ℕ) (k : Text) (l : List Text)
    → IsDistinct l
    → includes k l ≡ true
    → sum f l ≡ f k + sum f (drop_text_of k l)
unfolding sum drop_text_of IsDistinct includes
sum-drop_text_of f k [] d h = absurd (ground arith)
sum-drop_text_of f k (x ∷ xs) d h = sum_step f k x xs d.0 h (sum-drop_text_of f k xs d.1)

sum_congruent :
    (f g : Text → ℕ) (l : List Text)
    → ((k : Text) → includes k l ≡ true → f k ≡ g k)
    → sum f l ≡ sum g l
unfolding sum includes
sum_congruent f g [] h = refl
sum_congruent f g (x ∷ xs) h =
    let head : f x ≡ g x = h x (ground (arith, same_refl x)) in
    let rest : sum f xs ≡ sum g xs = sum_congruent f g xs (λ k i. h k (ground arith)) in
    ground arith

-- The order does not count.
pub sum_same_ids :
    (f : Text → ℕ) (l m : List Text)
    → IsDistinct l
    → IsDistinct m
    → ((k : Text) → includes k l ≡ includes k m)
    → sum f l ≡ sum f m
unfolding sum IsDistinct includes
sum_same_ids f [] [] d e h = refl
sum_same_ids f [] (y ∷ ys) d e h = absurd (ground (arith, h y, same_refl y))
sum_same_ids f (x ∷ xs) m d e h =
    let there : includes x m ≡ true = ground (arith, h x, same_refl x) in
    let rest : sum f xs ≡ sum f (drop_text_of x m) =
      sum_same_ids f xs (drop_text_of x m) d.1 (IsDistinct-drop_text_of x m e) (λ k.
        ground (arith, h k, d.0, includes-drop_text_of k x m, same_iff k x, includes_at k x xs)) in
    ground (arith, sum-drop_text_of f x m e there, rest)

module _ {Row Db : Type 0} (e : Engine Row Db) (distinct : (db : Db) → IsDistinct (e.ids db)) where
  ids-put :
      (db : Db) (k j : Text) (r : Row)
      → includes j (e.ids (e.put db k r)) ≡ (if same k j then true else includes j (e.ids db))
  ids-put db k j r =
      ground (arith, e.includes-ids (e.put db k r) j, e.includes-ids db j, e.get-put db k j r)

  -- After a write, the sum of a number that each row has is that of the new row, and of the others.
  pub sum-put :
      (weight : Option Row → ℕ) (db : Db) (k : Text) (r : Row)
      → sum (λ j. weight (e.get (e.put db k r) j)) (e.ids (e.put db k r))
        ≡ weight (some r) + sum (λ j. weight (e.get db j)) (drop_text_of k (e.ids db))
  sum-put weight db k r =
      let db' = e.put db k r in
      let new : Text → ℕ = λ j. weight (e.get db' j) in
      let old : Text → ℕ = λ j. weight (e.get db j) in
      let others : sum new (drop_text_of k (e.ids db')) ≡ sum new (drop_text_of k (e.ids db)) =
        sum_same_ids new (drop_text_of k (e.ids db')) (drop_text_of k (e.ids db))
          (IsDistinct-drop_text_of k (e.ids db') (distinct db'))
          (IsDistinct-drop_text_of k (e.ids db) (distinct db))
          (λ j. ground (
            arith,
            includes-drop_text_of j k (e.ids db'),
            includes-drop_text_of j k (e.ids db),
            ids-put db k j r,
            same_iff k j,
            same_iff j k,
          )) in
      let unchanged : sum new (drop_text_of k (e.ids db)) ≡ sum old (drop_text_of k (e.ids db)) =
        sum_congruent new old (drop_text_of k (e.ids db)) (λ j i. ap weight (
          e.get-put db k j r
          ∙ ground (arith, i, includes-drop_text_of j k (e.ids db), same_iff k j, same_iff j k))) in
      sum-drop_text_of new k (e.ids db') (distinct db')
        (ground (arith, ids-put db k k r, same_refl k))
      ∙ ground (
        arith,
        others,
        unchanged,
        e.get-put db k k r,
        same_refl k,
        ap weight (e.get-put db k k r),
      )

-- Every id of a list once.
unfoldable pub once : List Text → List Text
once [] = []
once (x ∷ xs) = x ∷ drop_text_of x (once xs)

IsDistinct-once : (l : List Text) → IsDistinct (once l)
unfolding IsDistinct once
IsDistinct-once [] = tt
IsDistinct-once (x ∷ xs) = (
  includes-drop_text_of x x (once xs) ∙ ground (arith, same_refl x),
  IsDistinct-drop_text_of x (once xs) (IsDistinct-once xs),
)

pub includes-once : (k : Text) (l : List Text) → includes k (once l) ≡ includes k l
unfolding includes once
includes-once k [] = refl
includes-once k (x ∷ xs) = ground (arith, includes-once k xs, includes-drop_text_of k x (once xs))

-- A list of ids and rows whose query returns every id once.
abbrev pub unique_engine : {V : Type 0} → Engine V (List (Text × V))
unique_engine = record {
  get = λ rows k. lookup k rows;
  put = λ rows k v. insert k v rows;
  ids = λ rows. once (ids_of rows);
  get-put = λ rows k j v. lookup-insert k j v rows;
  includes-ids = λ rows k. includes-once k (ids_of rows) ∙ includes-ids_of rows k;
}

pub unique_distinct : {V : Type 0} (rows : List (Text × V)) → IsDistinct (once (ids_of rows))
unique_distinct rows = IsDistinct-once (ids_of rows)
