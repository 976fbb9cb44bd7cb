-- ===== src/Store/Outbox/Sent.antt =====
-- A job that was sent stays as it is, whatever stale copies are saved.
use yente.Prelude.{
  Text, ◌≡◌, refl, sym, ap, subst, ◌∙◌, false, Option, none, some, List, [], ◌∷◌, same, same_iff,
  Result, ok, err, ◌>>=◌, arith, Bool-cases, Result-cases, inl, inr,
}
use yente.Domain.Outbox.{sent}
use yente.Store.Cells.{Engine}
use yente.Store.Outbox.{
  Row, Error, Enqueued, key_of, enqueue_at, enqueue, over_sent, save_at, save, is_sent,
}

pub data Call : Type 0 where
  enqueues saves : Row → Call

module _ {Db : Type 0} (e : Engine Row Db) (digest : Text → Text) where
  abbrev pub db_of : Result Error (Enqueued e digest) → Db → Db
  db_of (ok x) db = x.db
  db_of (err x) db = db

  abbrev pub saved : Result Error Db → Db → Db
  saved (ok x) db = x
  saved (err x) db = db

  -- A call that throws writes nothing.
  unfoldable pub act : Db → Call → Db
  act db (enqueues r) = db_of (enqueue e digest r db) db
  act db (saves r) = saved (save e digest r db) db

  unfoldable pub run : Db → List Call → Db
  run db [] = db
  run db (c ∷ cs) = run (act db c) cs

  put_elsewhere :
      (db : Db) (id k : Text) (r stored : Row)
      → e.get db k ≡ some stored
      → same id k ≡ false
      → e.get (e.put db id r) k ≡ some stored
  put_elsewhere db id k r stored g n = ground (arith, e.get-put db id k r, g, n)

  enqueue_at-kept :
      (id k : Text) (r stored : Row) (old : Option Row) (db : Db)
      → e.get db id ≡ old
      → e.get db k ≡ some stored
      → e.get (enqueue_at e digest id r old db).db k ≡ some stored
  enqueue_at-kept id k r stored (some x) db o g = g
  enqueue_at-kept id k r stored none db o g = elim (Bool-cases (same id k)) [
    | inl s ↦ absurd (ground (arith, ap (λ j. e.get db j) ((same_iff id k).0 s), o, g))
    | inr s ↦ put_elsewhere db id k r stored g s
  ]

  over_sent-kept :
      (old r : Row) (db : Db) (k : Text) (stored : Row)
      → e.get db k ≡ some stored
      → e.get (saved (over_sent e digest old r db) db) k ≡ some stored
  over_sent-kept old r db k stored g = ground (arith, g)

  some_row : {a b : Row} → some a ≡ some b → a ≡ b
  some_row {a = a} h = ap (λ o. elim o [ none ↦ a | some r ↦ r ]) h

  save_at-kept :
      (id k : Text) (r stored : Row) (old : Option Row) (db : Db)
      → e.get db id ≡ old
      → e.get db k ≡ some stored
      → stored.job.state ≡ sent
      → e.get (saved (save_at e digest id r old db) db) k ≡ some stored
  save_at-kept id k r stored none db o g s = elim (Bool-cases (same id k)) [
    | inl x ↦ absurd (ground (arith, ap (λ j. e.get db j) ((same_iff id k).0 x), o, g))
    | inr x ↦ put_elsewhere db id k r stored g x
  ]
  save_at-kept id k r stored (some old) db o g s = elim (Bool-cases (is_sent old.job.state)) [
    | inl t ↦
        let refused : over_sent e digest old r db ≡ save_at e digest id r (some old) db =
          ground (arith, t) in
        subst (λ x. e.get (saved x db) k ≡ some stored) refused (over_sent-kept old r db k stored g)
    | inr t ↦ elim (Bool-cases (same id k)) [
      | inl x ↦
          let here = some_row (sym o ∙ ap (λ j. e.get db j) ((same_iff id k).0 x) ∙ g) in
          absurd (ground (arith, ap (λ (j : Row). is_sent j.job.state) here, ap is_sent s))
      | inr x ↦
          let written : ok (e.put db id r) ≡ save_at e digest id r (some old) db =
            ground (arith, t) in
          subst (λ y. e.get (saved y db) k ≡ some stored) written
            (put_elsewhere db id k r stored g x)
    ]
  ]

  act-kept :
      (db : Db) (c : Call) (k : Text) (stored : Row)
      → e.get db k ≡ some stored
      → stored.job.state ≡ sent
      → e.get (act db c) k ≡ some stored
  unfolding act enqueue save
  act-kept db (enqueues r) k stored g s = elim (Result-cases (key_of e digest r)) [
    | inl (id, h) ↦
        subst
          (λ m.
            e.get (db_of (m >>= λ j. ok (enqueue_at e digest j r (e.get db j) db)) db) k
            ≡ some stored)
          (sym h) (enqueue_at-kept id k r stored (e.get db id) db refl g)
    | inr (x, h) ↦
        subst
          (λ m.
            e.get (db_of (m >>= λ j. ok (enqueue_at e digest j r (e.get db j) db)) db) k
            ≡ some stored)
          (sym h) g
  ]
  act-kept db (saves r) k stored g s = elim (Result-cases (key_of e digest r)) [
    | inl (id, h) ↦
        subst
          (λ m. e.get (saved (m >>= λ j. save_at e digest j r (e.get db j) db) db) k ≡ some stored)
          (sym h) (save_at-kept id k r stored (e.get db id) db refl g s)
    | inr (x, h) ↦
        subst
          (λ m. e.get (saved (m >>= λ j. save_at e digest j r (e.get db j) db) db) k ≡ some stored)
          (sym h) g
  ]

  -- The row of a job that was sent is never written again, whatever jobs are enqueued and whatever copies
  -- of it are saved, stale ones included: it stays sent, under its message id.
  pub sent_kept :
      (db : Db) (cs : List Call) (k : Text) (stored : Row)
      → e.get db k ≡ some stored
      → stored.job.state ≡ sent
      → e.get (run db cs) k ≡ some stored
  unfolding run
  sent_kept db [] k stored g s = g
  sent_kept db (c ∷ cs) k stored g s =
      sent_kept (act db c) cs k stored (act-kept db c k stored g s) s
