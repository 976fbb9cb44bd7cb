-- ===== src/Runtime/Desk/Events.antt =====
-- Any sequence of letters that are queued and drains of the outbox.
use yente.Prelude.{
  Text, ℕ, ◌≡◌, refl, sym, ap, subst, ◌∙◌, Bool, true, false, Option, none, some, List, [], ◌∷◌,
  same, same_iff, if◌then◌else◌, arith, Bool-cases, inl, inr, ◌⊎◌, Result, ok, err, ◌>>=◌,
}
use yente.Domain.Outbox.{Job, Email, sent, enqueue_email, is_sending_halted}
use yente.Domain.Outbox as Jobs
use yente.Store.Cells.Sums.{IsDistinct}
use yente.Store.Outbox.{Row, Letter, Context, Enqueued, key_of, enqueue, enqueue_at, claimable}
use yente.Store.Outbox as Rows
use yente.Runtime.Desk.{
  Stores, Reply, Desk, drain_rows, drain_outbox, queue, all_live, store_letter, stored_new,
}
use yente.Runtime.Desk
use yente.Runtime.Desk.Copies.{copies}
use yente.Runtime.Desk.Once.{IsOnce, fresh-IsOnce, drain_rows-IsOnce}

-- A letter is queued, for the members as they then are; the outbox is drained.
pub data Event (P : Type 0) : Type 0 where
  queues : Email → Letter → Option Context → P → Event P
  drains : Option Bool → ℕ → (Row → Reply) → Event P

module _ {O P W M I : Type 0} (st : Stores O P W M I) (digest : Text → Text)
    (wording : Desk.Error → Text) where
  -- A call that throws queues nothing.
  abbrev pub queued : Result Desk.Error (O × Bool) → Desk st digest wording → Desk st digest wording
  queued (ok x) s = record s { outbox = x.0 }
  queued (err e) s = s

  unfoldable pub happen : Desk st digest wording → Event P → Desk st digest wording
  happen s (queues email letter context people) =
      queued (queue st digest wording email letter context people s.outbox) s
  happen s (drains halted now transport) = drain_outbox st digest wording halted now transport s

  unfoldable pub run : Desk st digest wording → List (Event P) → Desk st digest wording
  run s [] = s
  run s (e ∷ es) = run (happen s e) es

  -- The desk with another outbox.
  abbrev with_outbox : Desk st digest wording → O → Desk st digest wording
  with_outbox s db = record s { outbox = db }

  unchanged_outbox :
      (s : Desk st digest wording)
      → IsOnce st digest wording s
      → IsOnce st digest wording (with_outbox s s.outbox)
  unchanged_outbox s h = record { once = h.once; keyed = h.keyed }

  put_new :
      (id : Text) (r : Row) (s : Desk st digest wording)
      → IsOnce st digest wording s
      → key_of st.outbox digest r ≡ ok id
      → st.outbox.get s.outbox id ≡ none
      → IsOnce st digest wording (with_outbox s (st.outbox.put s.outbox id r))
  put_new id r s h key absent = record {
    once = λ k. elim (h.once k) [
      | inl z ↦ inl z
      | inr (o, (x, g, final)) ↦ elim (Bool-cases (same id k)) [
        | inl e ↦
            absurd
              (ground (arith, absent, ap (λ j. st.outbox.get s.outbox j) ((same_iff id k).0 e), g))
        | inr n ↦ inr (o, (x, st.outbox.get-put s.outbox id k r ∙ ground (arith, n, g), final))
      ]
    ];
    keyed = λ k x g. elim (Bool-cases (same id k)) [
      | inl e ↦
          let at : id ≡ k = (same_iff id k).0 e in
          let here : some r ≡ some x =
            sym (st.outbox.get-put s.outbox id k r ∙ ground (arith, e)) ∙ g in
          subst (λ o. key_of st.outbox digest (elim o [ none ↦ r | some y ↦ y ]) ≡ ok id) here key
          ∙ ap ok at
      | inr n ↦ h.keyed k x (sym (st.outbox.get-put s.outbox id k r ∙ ground (arith, n)) ∙ g)
    ];
  }

  enqueue_at-IsOnce :
      (id : Text) (r : Row) (old : Option Row) (s : Desk st digest wording)
      → st.outbox.get s.outbox id ≡ old
      → IsOnce st digest wording s
      → key_of st.outbox digest r ≡ ok id
      → IsOnce st digest wording (with_outbox s (enqueue_at st.outbox digest id r old s.outbox).db)
  enqueue_at-IsOnce id r none s g h key = put_new id r s h key g
  enqueue_at-IsOnce id r (some x) s g h key = unchanged_outbox s h

  enqueued-IsOnce :
      (r : Row) (s : Desk st digest wording) (m : Result Rows.Error Text)
      → key_of st.outbox digest r ≡ m
      → IsOnce st digest wording s
      → IsOnce st digest wording (
          queued
            (stored_new st digest wording
              (m >>= λ id.
                ok (enqueue_at st.outbox digest id r (st.outbox.get s.outbox id) s.outbox))
              s.outbox)
            s)
  enqueued-IsOnce r s (ok id) key h =
      enqueue_at-IsOnce id r (st.outbox.get s.outbox id) s refl h key
  enqueued-IsOnce r s (err e) key h = h

  store_letter-IsOnce :
      (m : Result Jobs.Error Job) (letter : Letter) (context : Option Context)
      (s : Desk st digest wording)
      → IsOnce st digest wording s
      → IsOnce st digest wording
          (queued (store_letter st digest wording m letter context s.outbox) s)
  unfolding enqueue
  store_letter-IsOnce (err e) letter context s h = h
  store_letter-IsOnce (ok j) letter context s h =
      let r : Row = record { job = j; letter = letter; context = context } in
      enqueued-IsOnce r s (key_of st.outbox digest r) refl h

  queue-IsOnce :
      (email : Email) (letter : Letter) (context : Option Context) (live : Result Desk.Error Bool)
      (s : Desk st digest wording)
      → IsOnce st digest wording s
      → IsOnce st digest wording (
          queued
            (live >>= λ b.
              if b
              then store_letter st digest wording (enqueue_email email) letter context s.outbox
              else ok (s.outbox, false))
            s)
  queue-IsOnce email letter context (err e) s h = h
  queue-IsOnce email letter context (ok true) s h =
      store_letter-IsOnce (enqueue_email email) letter context s h
  queue-IsOnce email letter context (ok false) s h = unchanged_outbox s h

  counted-IsOnce :
      (m : Result Rows.Error (List (Text × Row))) (s : Desk st digest wording)
      → IsOnce st digest wording s
      → IsOnce st digest wording
          (Desk.count_only st digest wording m (record s { sent = 0; failed = none }))
  counted-IsOnce (err e) s h = fresh-IsOnce st digest wording s (some (Desk.not_saved e)) h
  counted-IsOnce (ok rows) s h = fresh-IsOnce st digest wording s none h

  drained-IsOnce :
      ((db : O) → IsDistinct (st.outbox.ids db))
      → (halted : Bool) (now : ℕ) (transport : Row → Reply) (s : Desk st digest wording)
      → IsOnce st digest wording s
      → IsOnce st digest wording (
          if halted
          then Desk.count_only st digest wording
              (claimable st.outbox digest s.outbox now 50)
              (record s { sent = 0; failed = none })
          else drain_rows st digest wording
              (claimable st.outbox digest s.outbox now 50)
              now
              transport
              (record s { sent = 0; failed = none }))
  drained-IsOnce distinct true now transport s h =
      counted-IsOnce (claimable st.outbox digest s.outbox now 50) s h
  drained-IsOnce distinct false now transport s h =
      drain_rows-IsOnce st digest wording distinct now transport s
        (claimable st.outbox digest s.outbox now 50) refl h

  happen-IsOnce :
      ((db : O) → IsDistinct (st.outbox.ids db))
      → (e : Event P) (s : Desk st digest wording) → IsOnce st digest wording s
      → IsOnce st digest wording (happen s e)
  unfolding happen queue drain_outbox
  happen-IsOnce distinct (queues email letter context people) s h =
      queue-IsOnce email letter context (all_live st digest wording people email.recipients) s h
  happen-IsOnce distinct (drains halted now transport) s h =
      drained-IsOnce distinct (is_sending_halted halted) now transport s h

  pub run-IsOnce :
      ((db : O) → IsDistinct (st.outbox.ids db))
      → (es : List (Event P)) (s : Desk st digest wording) → IsOnce st digest wording s
      → IsOnce st digest wording (run s es)
  unfolding run
  run-IsOnce distinct [] s h = h
  run-IsOnce distinct (e ∷ es) s h =
      run-IsOnce distinct es (happen s e) (happen-IsOnce distinct e s h)

  pub start-IsOnce :
      (s : Desk st digest wording)
      → ((k : Text) → st.outbox.get s.outbox k ≡ none)
      → s.taken ≡ []
      → IsOnce st digest wording s
  unfolding copies
  start-IsOnce s empty fresh = record {
    once = λ j. inl (ap (λ l. copies j l) fresh);
    keyed = λ j r g. absurd (ground (arith, empty j, g));
  }

  -- If the engine returns each id once: from an empty outbox on, whatever letters are queued and however
  -- often it is drained, with a transport that fails as it likes, the transport takes the letter under a
  -- key at most once, and if it did, the job under that key is sent.
  pub taken_once :
      ((db : O) → IsDistinct (st.outbox.ids db))
      → (es : List (Event P)) (s : Desk st digest wording)
      → ((k : Text) → st.outbox.get s.outbox k ≡ none)
      → s.taken ≡ []
      → (k : Text)
      → (copies k (run s es).taken ≡ 0)
        ⊎ ((copies k (run s es).taken ≡ 1)
            × ((r : Row) × (st.outbox.get (run s es).outbox k ≡ some r) × (r.job.state ≡ sent)))
  taken_once distinct es s empty fresh k =
      (run-IsOnce distinct es s (start-IsOnce s empty fresh)).once k
