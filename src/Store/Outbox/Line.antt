-- ===== src/Store/Outbox/Line.antt =====
-- The jobs that a worker may claim.
use yente.Prelude.{
  Text, ℕ, ◌+◌, ◌≤◌, ◌≡◌, refl, subst, some, List, [], ◌∷◌, ◌++◌, leb, length, ok, arith,
  Bool-cases, inl, inr, max_date, ◌⊎◌,
}
use yente.Domain.Outbox.{Job, pending, retry_wait, sending, begin_send, send_started}
use yente.Store.Cells.{Engine, select}
use yente.Store.Cells.Order.{
  slice, oldest_first, IsOrderedFrom, AllRows, length-slice, IsOrderedFrom-slice,
  IsOrderedFrom-oldest_first, AllRows-slice, AllRows-oldest_first, AllRows-select, AllRows-append,
}
use yente.Store.Outbox.{Row, claimable, due_rows, due_now, due_time, is_pending, is_waiting}

module _ {Db : Type 0} (e : Engine Row Db) (digest : Text → Text) where
  -- A stored row in one of the two states of a job that waits.
  abbrev Waits : Db → Text × Row → Type 0
  Waits db a =
      (e.get db a.0 ≡ some a.1) × ((a.1.job.state ≡ pending) ⊎ (a.1.job.state ≡ retry_wait))

  -- A stored row whose job a worker claims at that time.
  pub record IsClaimable (db : Db) (now : ℕ) (a : Text × Row) : Type 0 where
    pub stored : e.get db a.0 ≡ some a.1
    pub due : a.1.job.available_at ≤ now
    pub begins : (k : Job) × (begin_send a.1.job now ≡ ok k) × (k.state ≡ sending)

  abbrev claimed : Job → ℕ → Job
  claimed j now = record j {
    state = sending;
    attempts = j.attempts + 1;
    history = j.history ++ (send_started (j.attempts + 1), now) ∷ [];
  }

  begins_now :
      (j : Job) (now : ℕ)
      → (j.state ≡ pending) ⊎ (j.state ≡ retry_wait)
      → j.available_at ≤ now
      → now ≤ max_date
      → (k : Job) × (begin_send j now ≡ ok k) × (k.state ≡ sending)
  unfolding begin_send
  begins_now j now (inl s) due valid = (claimed j now, ground arith, refl)
  begins_now j now (inr s) due valid = (claimed j now, ground arith, refl)

  due_rows-IsClaimable :
      (db : Db) (now : ℕ)
      → now ≤ max_date
      → (rows : List (Text × Row)) → AllRows (Waits db) rows
      → AllRows (IsClaimable db now) (due_rows now rows)
  unfolding AllRows due_rows
  due_rows-IsClaimable db now valid [] h = tt
  due_rows-IsClaimable db now valid (a ∷ rest) ((g, w), h) =
      elim (Bool-cases (leb a.1.job.available_at now)) [
        | inl t ↦
            let all : AllRows (IsClaimable db now) (a ∷ due_rows now rest) = (
              record {
                stored = g;
                due = ground arith;
                begins = begins_now a.1.job now w (ground arith) valid;
              },
              due_rows-IsClaimable db now valid rest h,
            ) in
            let same_rows : a ∷ due_rows now rest ≡ due_rows now (a ∷ rest) = ground (arith, t) in
            subst (AllRows (IsClaimable db now)) same_rows all
        | inr t ↦
            subst (AllRows (IsClaimable db now)) (ground (arith, t))
              (due_rows-IsClaimable db now valid rest h)
      ]

  waiting_rows :
      (db : Db)
      → AllRows (Waits db) (select e db is_pending (e.ids db) ++ select e db is_waiting (e.ids db))
  waiting_rows db =
      AllRows-append (Waits db) (select e db is_pending (e.ids db))
        (select e db is_waiting (e.ids db))
        (AllRows-select e db is_pending (Waits db) (λ id r g p. (g, inl (ground arith))) (e.ids db))
        (AllRows-select e db is_waiting (Waits db) (λ id r g p. (g, inr (ground arith))) (e.ids db))

  -- The jobs that are claimed at a valid time are at most as many as asked for, in the order in which they
  -- are due; each stands in the collection under its id, is due, and its sending can begin.
  pub claimable_lem :
      (db : Db) (now limit : ℕ) (rows : List (Text × Row))
      → claimable e digest db now limit ≡ ok rows
      → (length rows ≤ limit)
        × IsOrderedFrom (due_time e digest) 0 rows
        × AllRows (IsClaimable db now) rows
  unfolding claimable
  claimable_lem db now limit rows h = elim (Bool-cases (leb now max_date)) [
    | inr t ↦ absurd (ground (arith, t))
    | inl t ↦
        let due = due_now e digest db now in
        let found : slice limit (oldest_first (due_time e digest) due) ≡ rows = ground (arith, t) in
        subst
          (λ l.
            (length l ≤ limit)
            × IsOrderedFrom (due_time e digest) 0 l
            × AllRows (IsClaimable db now) l)
          found
          (
            length-slice limit (oldest_first (due_time e digest) due),
            IsOrderedFrom-slice (due_time e digest) limit 0 (oldest_first (due_time e digest) due)
                (IsOrderedFrom-oldest_first (due_time e digest) due),
            AllRows-slice (IsClaimable db now) limit (oldest_first (due_time e digest) due) (
                AllRows-oldest_first (due_time e digest) (IsClaimable db now) due (
                  due_rows-IsClaimable db now (ground (arith, t))
                    (select e db is_pending (e.ids db) ++ select e db is_waiting (e.ids db))
                    (waiting_rows db))),
          )
  ]
