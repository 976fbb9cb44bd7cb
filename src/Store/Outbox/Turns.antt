-- ===== src/Store/Outbox/Turns.antt =====
-- No job is passed over when the jobs to be claimed are taken.
use yente.Prelude.{
  Text, ℕ, ◌≤◌, ◌≡◌, refl, subst, ◌⊎◌, inl, inr, Bool, true, false, Option, none, some, List, [],
  ◌∷◌, ◌++◌, leb, length, ok, arith, Bool-cases, max_date, if◌then◌else◌,
}
use yente.Domain.Outbox.{is_due}
use yente.Store.Cells.{Engine, select}
use yente.Store.Cells.Laws.{lookup-query}
use yente.Store.Cells.Order.{
  slice, oldest_first, IsOrderedFrom, AllRows, IsOrderedFrom-oldest_first,
}
use yente.Store.Cells.Turn.{
  RowIn, here, there, HasTurn, slice-HasTurn, lookup-RowIn, RowIn-oldest_first,
}
use yente.Store.Outbox.{Row, claimable, due_rows, due_now, due_time, is_pending, is_waiting}
use yente.Store.Outbox.Line.{IsClaimable, claimable_lem}

module _ {R : Type 0} (a : Text × R) where
  RowIn-left : (l m : List (Text × R)) → RowIn a l → RowIn a (l ++ m)
  RowIn-left [] m i = elim i [ ]
  RowIn-left (b ∷ l) m here = here
  RowIn-left (b ∷ l) m (there i) = there (RowIn-left l m i)

  RowIn-right : (l m : List (Text × R)) → RowIn a m → RowIn a (l ++ m)
  RowIn-right [] m i = i
  RowIn-right (b ∷ l) m i = there (RowIn-right l m i)

RowIn-due_rows :
    (now : ℕ) (a : Text × Row) (l : List (Text × Row))
    → leb a.1.job.available_at now ≡ true
    → RowIn a l
    → RowIn a (due_rows now l)
unfolding due_rows
RowIn-due_rows now a [] d i = elim i [ ]
RowIn-due_rows now a (b ∷ l) d here = rw d here
RowIn-due_rows now a (b ∷ l) d (there i) = elim (Bool-cases (leb b.1.job.available_at now)) [
  | inl t ↦ rw t (there (RowIn-due_rows now a l d i))
  | inr f ↦ rw f (RowIn-due_rows now a l d i)
]

module _ {Db : Type 0} (e : Engine Row Db) (digest : Text → Text) where
  abbrev waiting : Db → List (Text × Row)
  waiting db = select e db is_pending (e.ids db) ++ select e db is_waiting (e.ids db)

  found :
      (db : Db) (id : Text) (r : Row) (b : Bool)
      → e.get db id ≡ some r
      → (if b then is_pending r else is_waiting r) ≡ true
      → RowIn (id, r) (waiting db)
  found db id r true g w =
      RowIn-left (id, r) (select e db is_pending (e.ids db)) (select e db is_waiting (e.ids db))
        (lookup-RowIn id r _ (ground (arith, lookup-query e db is_pending id)))
  found db id r false g w =
      RowIn-right (id, r) (select e db is_pending (e.ids db)) (select e db is_waiting (e.ids db))
        (lookup-RowIn id r _ (ground (arith, lookup-query e db is_waiting id)))

  -- A row whose job is due is taken, or finds the list full of rows that are due no later.
  abbrev pub IsServed : ℕ → ℕ → Text → Option Row → List (Text × Row) → Type 0
  IsServed limit now id none l = Unit {0}
  IsServed limit now id (some r) l =
      (is_due r.job now ≡ ok false) ⊎ HasTurn (due_time e digest) limit (id, r) l

  taken :
      (db : Db) (limit now : ℕ) (id : Text) (r : Row)
      → leb r.job.available_at now ≡ true
      → RowIn (id, r) (waiting db)
      → HasTurn
          (due_time e digest)
          limit
          (id, r)
          (slice limit (oldest_first (due_time e digest) (due_now e digest db now)))
  taken db limit now id r d i =
      let due = due_now e digest db now in
      slice-HasTurn (due_time e digest) limit 0 (id, r) (oldest_first (due_time e digest) due)
        (IsOrderedFrom-oldest_first (due_time e digest) due)
        (RowIn-oldest_first (due_time e digest) (id, r) due
          (RowIn-due_rows now (id, r) (waiting db) d i))

  not_due_yet :
      (r : Row) (now : ℕ)
      → leb now max_date ≡ true
      → leb r.job.available_at now ≡ false
      → is_due r.job now ≡ ok false
  unfolding is_due
  not_due_yet r now v d = ground arith

  not_in_line :
      (r : Row) (now : ℕ)
      → leb now max_date ≡ true
      → is_pending r ≡ false
      → is_waiting r ≡ false
      → is_due r.job now ≡ ok false
  unfolding is_due
  not_in_line r now v p w = ground arith

  row-IsServed :
      (db : Db) (limit now : ℕ) (id : Text) (row : Option Row)
      → leb now max_date ≡ true
      → e.get db id ≡ row
      → IsServed limit now id row
          (slice limit (oldest_first (due_time e digest) (due_now e digest db now)))
  row-IsServed db limit now id none v g = tt
  row-IsServed db limit now id (some r) v g = elim (Bool-cases (leb r.job.available_at now)) [
    | inr f ↦ inl (not_due_yet r now v f)
    | inl d ↦ elim (Bool-cases (is_pending r)) [
      | inl p ↦ inr (taken db limit now id r d (found db id r true g p))
      | inr p ↦ elim (Bool-cases (is_waiting r)) [
        | inl w ↦ inr (taken db limit now id r d (found db id r false g w))
        | inr w ↦ inl (not_in_line r now v p w)
      ]
    ]
  ]

  -- The jobs that are claimed at a valid time are at most as many as asked for, in the order in which
  -- they are due; each stands in the collection under its id, is due, and its sending can begin. A job
  -- that is stored under an id and due by the machine's own predicate is among them, unless they are as
  -- many as asked for and none is due later than it.
  pub claimable_in_turn :
      (db : Db) (now limit : ℕ) (rows : List (Text × Row)) (id : Text)
      → claimable e digest db now limit ≡ ok rows
      → (length rows ≤ limit)
        × IsOrderedFrom (due_time e digest) 0 rows
        × AllRows (IsClaimable e digest db now) rows
        × IsServed limit now id (e.get db id) rows
  unfolding claimable
  claimable_in_turn db now limit rows id h =
      let (few, ordered, ready) = claimable_lem e digest db now limit rows h in
      (
        few,
        ordered,
        ready,
        elim (Bool-cases (leb now max_date)) [
          | inr t ↦ absurd (ground (arith, t))
          | inl t ↦
              subst (IsServed limit now id (e.get db id)) (ground (arith, t))
                (row-IsServed db limit now id (e.get db id) t refl)
        ],
      )
