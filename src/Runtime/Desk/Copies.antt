-- ===== src/Runtime/Desk/Copies.antt =====
-- The rows that a drain claims stand under different ids, each once.
use yente.Prelude.{
  Text, ℕ, zero, suc, ◌+◌, ◌≤◌, ◌≡◌, refl, sym, ap, subst, ◌∙◌, Bool, false, Option, none, some,
  List, [], ◌∷◌, ◌++◌, same, same_iff, includes, leb, if◌then◌else◌, arith, Bool-cases,
  Option-cases, inl, inr, ◌⊎◌, ok, max_date,
}
use yente.Store.Cells.{Engine, select, keep_if}
use yente.Store.Cells.Sums.{IsDistinct}
use yente.Store.Cells.Order.{slice, put_in_order, oldest_first}
use yente.Store.Outbox.{Row, claimable, due_rows, due_now, due_time, is_pending, is_waiting}

-- How often an id stands there.
unfoldable pub copies : Text → List Text → ℕ
copies k [] = 0
copies k (x ∷ xs) = if same x k then suc (copies k xs) else copies k xs

unfoldable pub row_ids : List (Text × Row) → List Text
row_ids [] = []
row_ids (a ∷ rest) = a.0 ∷ row_ids rest

module _ (k : Text) where
  abbrev rows_at : List (Text × Row) → ℕ
  rows_at rows = copies k (row_ids rows)

  absent_copies : (l : List Text) → includes k l ≡ false → copies k l ≡ 0
  unfolding copies includes
  absent_copies [] h = refl
  absent_copies (x ∷ xs) h = ground (arith, absent_copies xs, same_iff x k, same_iff k x)

  one_copy : (l : List Text) → IsDistinct l → copies k l ≤ 1
  unfolding copies IsDistinct
  one_copy [] h = omega arith
  one_copy (x ∷ xs) (new, h) = elim (Bool-cases (same x k)) [
    | inl e ↦
        ground (arith, absent_copies xs (ap (λ t. includes t xs) (sym ((same_iff x k).0 e)) ∙ new))
    | inr e ↦ ground (arith, one_copy xs h)
  ]

  rows_at-append : (l m : List (Text × Row)) → rows_at (l ++ m) ≡ rows_at l + rows_at m
  unfolding copies row_ids
  rows_at-append [] m = omega arith
  rows_at-append (a ∷ l) m = ground (arith, rows_at-append l m)

  rows_at-put_in_order :
      (time : Row → ℕ) (a : Text × Row) (l : List (Text × Row))
      → rows_at (put_in_order time a l) ≡ rows_at (a ∷ l)
  unfolding copies row_ids put_in_order
  rows_at-put_in_order time a [] = refl
  rows_at-put_in_order time a (b ∷ rest) = ground (arith, rows_at-put_in_order time a rest)

  rows_at-oldest_first :
      (time : Row → ℕ) (l : List (Text × Row)) → rows_at (oldest_first time l) ≡ rows_at l
  unfolding copies row_ids oldest_first
  rows_at-oldest_first time [] = refl
  rows_at-oldest_first time (a ∷ rest) =
      rows_at-put_in_order time a (oldest_first time rest)
      ∙ ground (arith, rows_at-oldest_first time rest)

  rows_at-slice : (n : ℕ) (l : List (Text × Row)) → rows_at (slice n l) ≤ rows_at l
  unfolding copies row_ids slice
  rows_at-slice n [] = omega arith
  rows_at-slice zero (a ∷ rest) = omega arith
  rows_at-slice (suc n) (a ∷ rest) = ground (arith, rows_at-slice n rest)

  rows_at-due_rows : (now : ℕ) (l : List (Text × Row)) → rows_at (due_rows now l) ≤ rows_at l
  unfolding copies row_ids due_rows
  rows_at-due_rows now [] = omega arith
  rows_at-due_rows now (a ∷ rest) = ground (arith, rows_at-due_rows now rest)

  module _ {Db : Type 0} (e : Engine Row Db) (db : Db) where
    abbrev passes : (Row → Bool) → Option Row → ℕ
    passes p none = 0
    passes p (some r) = if p r then 1 else 0

    keep_if_copies :
        (p : Row → Bool) (id : Text) (row : Option Row) (rest : List (Text × Row))
        → rows_at (keep_if e p id row rest)
          ≡ (if same id k then passes p row + rows_at rest else rows_at rest)
    unfolding copies row_ids
    keep_if_copies p id none rest = ground arith
    keep_if_copies p id (some r) rest = ground arith

    select_at_most : (p : Row → Bool) (ids : List Text) → rows_at (select e db p ids) ≤ copies k ids
    unfolding copies row_ids select
    select_at_most p [] = omega arith
    select_at_most p (id ∷ ids) = elim (Option-cases (e.get db id)) [
      | inl g ↦
          ground
            (arith, keep_if_copies p id (e.get db id) (select e db p ids), select_at_most p ids, g)
      | inr (r, g) ↦
          ground
            (arith, keep_if_copies p id (e.get db id) (select e db p ids), select_at_most p ids, g)
    ]

    select_refused :
        (p : Row → Bool) (ids : List Text)
        → passes p (e.get db k) ≡ 0
        → rows_at (select e db p ids) ≡ 0
    unfolding copies row_ids select
    select_refused p [] h = refl
    select_refused p (id ∷ ids) h = elim (Bool-cases (same id k)) [
      | inl s ↦ ground (
        arith,
        keep_if_copies p id (e.get db id) (select e db p ids),
        ap (λ j. passes p (e.get db j)) ((same_iff id k).0 s),
        select_refused p ids h,
      )
      | inr s ↦
          ground
            (arith, keep_if_copies p id (e.get db id) (select e db p ids), select_refused p ids h)
    ]

    either_refuses : (row : Option Row) → (passes is_pending row ≡ 0) ⊎ (passes is_waiting row ≡ 0)
    either_refuses none = inl refl
    either_refuses (some r) = ground arith

    due_now_copies :
        (digest : Text → Text) (now : ℕ)
        → IsDistinct (e.ids db)
        → rows_at (due_now e digest db now) ≤ 1
    due_now_copies digest now distinct =
        let pending_rows = select e db is_pending (e.ids db) in
        let waiting_rows = select e db is_waiting (e.ids db) in
        ground (
          arith,
          rows_at-due_rows now (pending_rows ++ waiting_rows),
          rows_at-append pending_rows waiting_rows,
          select_at_most is_pending (e.ids db),
          select_at_most is_waiting (e.ids db),
          select_refused is_pending (e.ids db),
          select_refused is_waiting (e.ids db),
          either_refuses (e.get db k),
          one_copy (e.ids db) distinct,
        )

    -- No row is claimed twice in one drain.
    pub claimable_once :
        (digest : Text → Text) (now limit : ℕ) (rows : List (Text × Row))
        → IsDistinct (e.ids db)
        → claimable e digest db now limit ≡ ok rows
        → rows_at rows ≤ 1
    unfolding claimable
    claimable_once digest now limit rows distinct h = elim (Bool-cases (leb now max_date)) [
      | inr t ↦ absurd (ground (arith, t))
      | inl t ↦
          let due = due_now e digest db now in
          let found : slice limit (oldest_first (due_time e digest) due) ≡ rows =
            ground (arith, t) in
          subst (λ l. rows_at l ≤ 1) found
            (omega (
              arith,
              rows_at-slice limit (oldest_first (due_time e digest) due),
              rows_at-oldest_first (due_time e digest) due,
              due_now_copies digest now distinct,
            ))
    ]
