-- ===== src/Store/Cells/Order.antt =====
-- Rows in the order of a time, `rows.sort((a, b) => time(a) - time(b)).slice(0, limit)`.
use yente.Prelude.{
  Text, ℕ, zero, suc, ◌≤◌, ◌≡◌, refl, Bool, true, false, Option, none, some, List, [], ◌∷◌, ◌++◌,
  if◌then◌else◌, arith, leb, length,
}
use yente.Store.Cells.{Engine, select, keep_if}

module _ {R : Type 0} where
  -- `rows.slice(0, limit)`
  unfoldable pub slice : ℕ → List (Text × R) → List (Text × R)
  slice limit [] = []
  slice zero (a ∷ rest) = []
  slice (suc n) (a ∷ rest) = a ∷ slice n rest

  unfoldable pub AllRows : (Text × R → Type 0) → List (Text × R) → Type 0
  AllRows P [] = Unit {0}
  AllRows P (a ∷ rest) = P a × AllRows P rest

  pub length-slice : (n : ℕ) (l : List (Text × R)) → length (slice n l) ≤ n
  unfolding slice
  length-slice n [] = omega arith
  length-slice zero (a ∷ rest) = omega arith
  length-slice (suc n) (a ∷ rest) = omega (arith, length-slice n rest)

  module _ (P : Text × R → Type 0) where
    pub AllRows-append : (l m : List (Text × R)) → AllRows P l → AllRows P m → AllRows P (l ++ m)
    unfolding AllRows
    AllRows-append [] m h k = k
    AllRows-append (a ∷ l) m (p, h) k = (p, AllRows-append l m h k)

    pub AllRows-slice : (n : ℕ) (l : List (Text × R)) → AllRows P l → AllRows P (slice n l)
    unfolding AllRows slice
    AllRows-slice n [] o = tt
    AllRows-slice zero (a ∷ rest) o = tt
    AllRows-slice (suc n) (a ∷ rest) (h, o) = (h, AllRows-slice n rest o)

  pub AllRows-map :
      (P Q : Text × R → Type 0)
      → ((a : Text × R) → P a → Q a)
      → (l : List (Text × R)) → AllRows P l
      → AllRows Q l
  unfolding AllRows
  AllRows-map P Q f [] h = tt
  AllRows-map P Q f (a ∷ l) (p, h) = (f a p, AllRows-map P Q f l h)

module _ {R : Type 0} (time : R → ℕ) where
  -- A stable sort by the time.
  unfoldable pub put_in_order : Text × R → List (Text × R) → List (Text × R)
  put_in_order a [] = a ∷ []
  put_in_order a (b ∷ rest) =
      let later = put_in_order a rest in
      if leb (time a.1) (time b.1) then a ∷ b ∷ rest else b ∷ later

  unfoldable pub oldest_first : List (Text × R) → List (Text × R)
  oldest_first [] = []
  oldest_first (a ∷ rest) = put_in_order a (oldest_first rest)

  unfoldable pub IsOrderedFrom : ℕ → List (Text × R) → Type 0
  IsOrderedFrom t [] = Unit {0}
  IsOrderedFrom t (a ∷ rest) = (t ≤ time a.1) × IsOrderedFrom (time a.1) rest

  IsOrderedFrom-put_in_order :
      (t : ℕ) (a : Text × R) (l : List (Text × R))
      → t ≤ time a.1
      → IsOrderedFrom t l
      → IsOrderedFrom t (put_in_order a l)
  unfolding IsOrderedFrom put_in_order
  IsOrderedFrom-put_in_order t a [] h o = (h, tt)
  IsOrderedFrom-put_in_order t a (b ∷ rest) h o =
      ground (arith, IsOrderedFrom-put_in_order (time b.1) a rest)

  pub IsOrderedFrom-oldest_first : (l : List (Text × R)) → IsOrderedFrom 0 (oldest_first l)
  unfolding IsOrderedFrom oldest_first
  IsOrderedFrom-oldest_first [] = tt
  IsOrderedFrom-oldest_first (a ∷ rest) =
      IsOrderedFrom-put_in_order 0 a (oldest_first rest) (omega arith)
        (IsOrderedFrom-oldest_first rest)

  pub IsOrderedFrom-slice :
      (n t : ℕ) (l : List (Text × R)) → IsOrderedFrom t l → IsOrderedFrom t (slice n l)
  unfolding IsOrderedFrom slice
  IsOrderedFrom-slice n t [] o = tt
  IsOrderedFrom-slice zero t (a ∷ rest) o = tt
  IsOrderedFrom-slice (suc n) t (a ∷ rest) (h, o) = (h, IsOrderedFrom-slice n (time a.1) rest o)

  module _ (P : Text × R → Type 0) where
    put_if :
        (x y : List (Text × R)) (b : Bool)
        → AllRows P x
        → AllRows P y
        → AllRows P (if b then x else y)
    put_if x y true h k = h
    put_if x y false h k = k

    AllRows-put_in_order :
        (a : Text × R) (l : List (Text × R)) → P a → AllRows P l → AllRows P (put_in_order a l)
    unfolding AllRows put_in_order
    AllRows-put_in_order a [] h o = (h, tt)
    AllRows-put_in_order a (b ∷ rest) h (p, o) =
        put_if _ _ (leb (time a.1) (time b.1)) (h, (p, o)) (p, AllRows-put_in_order a rest h o)

    pub AllRows-oldest_first : (l : List (Text × R)) → AllRows P l → AllRows P (oldest_first l)
    unfolding AllRows oldest_first
    AllRows-oldest_first [] o = tt
    AllRows-oldest_first (a ∷ rest) (h, o) =
        AllRows-put_in_order a (oldest_first rest) h (AllRows-oldest_first rest o)

-- What holds of every row that passes a test holds of all rows of a query with that test.
module _ {R Db : Type 0} (e : Engine R Db) (db : Db) (p : R → Bool) (P : Text × R → Type 0) where
  keep_one :
      (id : Text) (r : R) (rest : List (Text × R)) (b : Bool)
      → (p r ≡ true → P (id, r))
      → p r ≡ b
      → AllRows P rest
      → AllRows P (if b then (id, r) ∷ rest else rest)
  unfolding AllRows
  keep_one id r rest true f e h = (f e, h)
  keep_one id r rest false f e h = h

  keep_if_row :
      (f : (id : Text) (r : R) → e.get db id ≡ some r → p r ≡ true → P (id, r)) (id : Text)
      (row : Option R) (rest : List (Text × R))
      → e.get db id ≡ row
      → AllRows P rest
      → AllRows P (keep_if e p id row rest)
  keep_if_row f id none rest g h = h
  keep_if_row f id (some r) rest g h = keep_one id r rest (p r) (f id r g) refl h

  pub AllRows-select :
      ((id : Text) (r : R) → e.get db id ≡ some r → p r ≡ true → P (id, r))
      → (ids : List Text) → AllRows P (select e db p ids)
  unfolding AllRows select
  AllRows-select f [] = tt
  AllRows-select f (id ∷ ids) =
      keep_if_row f id (e.get db id) (select e db p ids) refl (AllRows-select f ids)
