-- ===== src/Runtime/Desk/Sending.antt =====
-- What the sending of one row does to the outbox, and to the letters that the transport took.
use yente.Prelude.{
  Text, ℕ, ◌≤◌, ◌≡◌, refl, sym, ap, subst, ◌∙◌, Bool, false, Option, none, some, [], ◌∷◌, same,
  same_refl, arith, Bool-cases, Result-cases, inl, inr, ◌⊎◌, ok, ◌>>=◌, max_date,
}
use yente.Domain.Outbox.{Job, Draw, sending, sent, begin_send, mark_failed}
use yente.Domain.Outbox.Runs.{begins, fails, call, run}
use yente.Domain.Outbox.Timing.{run-SameEmail}
use yente.Store.Cells.{Engine}
use yente.Store.Outbox.{Row, key_of, save, save_at, is_sent}
use yente.Runtime.Desk.{
  Stores, Reply, Answer, accepts, throws, Desk, Books, is_permanent, save_over, after_save,
  after_failure, fail_one, after_booking, after_delivery, after_sending, settle, after_claim,
  send_claimed, send_one, record_delivery,
}
use yente.Runtime.Desk

-- No call changes the key of a job.
failed_key :
    (j k : Job) (at : ℕ) (message : Option Text) (permanent : Bool) (draw : Draw)
    → mark_failed j at message permanent draw ≡ ok k
    → k.idempotency_key ≡ j.idempotency_key
unfolding run call
failed_key j k at message permanent draw h =
    ground (arith, (run-SameEmail j (fails at message permanent draw ∷ [])).same_key, h)

pub claimed_key :
    (j k : Job) (now : ℕ) → begin_send j now ≡ ok k → k.idempotency_key ≡ j.idempotency_key
unfolding run call
claimed_key j k now h = ground (arith, (run-SameEmail j (begins now ∷ [])).same_key, h)

pub claimed_state :
    (j k : Job) (now : ℕ) → begin_send j now ≡ ok k → (k.state ≡ sending) × (now ≤ max_date)
unfolding begin_send
claimed_state j k now h = ground arith

module _ {Db : Type 0} (e : Engine Row Db) (digest : Text → Text) where
  save_at-cases :
      (id : Text) (r : Row) (old : Option Row) (db db' : Db)
      → save_at e digest id r old db ≡ ok db'
      → ((db' ≡ e.put db id r) × ((x : Row) → old ≡ some x → is_sent x.job.state ≡ false))
        ⊎ (db' ≡ db)
  save_at-cases id r none db db' h = inl (ground arith, λ x o. ground arith)
  save_at-cases id r (some old) db db' h = elim (Bool-cases (is_sent old.job.state)) [
    | inl t ↦ inr (ground (arith, t))
    | inr t ↦ inl (ground (arith, t), λ x o. ground (arith, t))
  ]

  save-at :
      (id : Text) (r : Row) (db : Db)
      → key_of e digest r ≡ ok id
      → save e digest r db ≡ save_at e digest id r (e.get db id) db
  unfolding save
  save-at id r db h = ap (λ m. m >>= λ j. save_at e digest j r (e.get db j) db) h

  save-cases :
      (id : Text) (r : Row) (db db' : Db)
      → key_of e digest r ≡ ok id
      → save e digest r db ≡ ok db'
      → ((db' ≡ e.put db id r) × ((x : Row) → e.get db id ≡ some x → is_sent x.job.state ≡ false))
        ⊎ (db' ≡ db)
  save-cases id r db db' k h = save_at-cases id r (e.get db id) db db' (sym (save-at id r db k) ∙ h)

  pub save-over :
      (id : Text) (r x : Row) (db : Db)
      → key_of e digest r ≡ ok id
      → e.get db id ≡ some x
      → is_sent x.job.state ≡ false
      → save e digest r db ≡ ok (e.put db id r)
  save-over id r x db k g n =
      save-at id r db k ∙ ap (λ o. save_at e digest id r o db) g ∙ ground (arith, n)

  pub key-same :
      (r : Row) (j : Job) (id : Text)
      → key_of e digest r ≡ ok id
      → j.idempotency_key ≡ r.job.idempotency_key
      → key_of e digest (record r { job = j }) ≡ ok id
  key-same r j id k same_key = ground (arith, k, same_key)

module _ {O P W M I : Type 0} (st : Stores O P W M I) (digest : Text → Text)
    (wording : Desk.Error → Text) where
  -- A step that takes no letter: it touches the row under one id at most, and not if it was sent.
  pub record IsQuiet (id : Text) (s t : Desk st digest wording) : Type 0 where
    pub elsewhere :
        (k : Text) → same id k ≡ false → st.outbox.get t.outbox k ≡ st.outbox.get s.outbox k
    pub taken_same : t.taken ≡ s.taken
    pub keyed : (x : Row) → st.outbox.get t.outbox id ≡ some x → key_of st.outbox digest x ≡ ok id
    pub sent_stays :
        (x : Row)
        → st.outbox.get s.outbox id ≡ some x
        → x.job.state ≡ sent
        → st.outbox.get t.outbox id ≡ some x

  abbrev pub KeyedAt : Text → Desk st digest wording → Type 0
  KeyedAt id s = (x : Row) → st.outbox.get s.outbox id ≡ some x → key_of st.outbox digest x ≡ ok id

  pub some_row : {a b : Row} → some a ≡ some b → a ≡ b
  some_row {a = a} h = ap (λ o. elim o [ none ↦ a | some r ↦ r ]) h

  pub unchanged :
      (id : Text) (s t : Desk st digest wording)
      → KeyedAt id s
      → t.outbox ≡ s.outbox
      → t.taken ≡ s.taken
      → IsQuiet id s t
  unchanged id s t keyed same_db same_taken = record {
    elsewhere = λ k n. ap (λ db. st.outbox.get db k) same_db;
    taken_same = same_taken;
    keyed = λ x g. keyed x (sym (ap (λ db. st.outbox.get db id) same_db) ∙ g);
    sent_stays = λ x g h. ap (λ db. st.outbox.get db id) same_db ∙ g;
  }

  pub stored_here :
      (db : O) (id : Text) (r : Row) → st.outbox.get (st.outbox.put db id r) id ≡ some r
  stored_here db id r = st.outbox.get-put db id id r ∙ ground (arith, same_refl id)

  pub stored_elsewhere :
      (db : O) (id k : Text) (r : Row)
      → same id k ≡ false
      → st.outbox.get (st.outbox.put db id r) k ≡ st.outbox.get db k
  stored_elsewhere db id k r n = st.outbox.get-put db id k r ∙ ground (arith, n)

  pub written :
      (id : Text) (r : Row) (s t : Desk st digest wording)
      → key_of st.outbox digest r ≡ ok id
      → t.outbox ≡ st.outbox.put s.outbox id r
      → t.taken ≡ s.taken
      → ((x : Row) → st.outbox.get s.outbox id ≡ some x → is_sent x.job.state ≡ false)
      → IsQuiet id s t
  written id r s t key put_db same_taken unsent = record {
    elsewhere = λ k n. ap (λ db. st.outbox.get db k) put_db ∙ stored_elsewhere s.outbox id k r n;
    taken_same = same_taken;
    keyed = λ x g.
        subst (λ y. key_of st.outbox digest y ≡ ok id)
          (some_row
            (sym (stored_here s.outbox id r) ∙ sym (ap (λ db. st.outbox.get db id) put_db) ∙ g))
          key;
    sent_stays = λ x g h. absurd (ground (arith, unsent x g, ap is_sent h));
  }

  after_save-IsQuiet :
      (id : Text) (r : Row) (s : Desk st digest wording)
      → key_of st.outbox digest r ≡ ok id
      → KeyedAt id s
      → IsQuiet id s (after_save st digest wording (save st.outbox digest r s.outbox) s)
  after_save-IsQuiet id r s key keyed = elim (Result-cases (save st.outbox digest r s.outbox)) [
    | inr (x, h) ↦
        subst (λ m. IsQuiet id s (after_save st digest wording m s)) (sym h)
          (unchanged id s (record s { failed = some (Desk.not_saved x) }) keyed refl refl)
    | inl (db, h) ↦
        subst (λ m. IsQuiet id s (after_save st digest wording m s)) (sym h)
          (elim (save-cases st.outbox digest id r s.outbox db key h) [
            | inl (put_db, unsent) ↦
                written id r s (record s { outbox = db }) key put_db refl unsent
            | inr same_db ↦ unchanged id s (record s { outbox = db }) keyed same_db refl
          ])
  ]

  pub fail_one-IsQuiet :
      (id : Text) (r : Row) (now : ℕ) (draw : Draw) (message : Text) (s : Desk st digest wording)
      → key_of st.outbox digest r ≡ ok id
      → KeyedAt id s
      → IsQuiet id s (fail_one st digest wording r now draw message s)
  fail_one-IsQuiet id r now draw message s key keyed =
      elim (Result-cases (mark_failed r.job now (some message) (is_permanent message) draw)) [
        | inr (x, h) ↦
            subst (λ m. IsQuiet id s (after_failure st digest wording r m s)) (sym h)
              (unchanged id s (record s { failed = some (Desk.bad_job x) }) keyed refl refl)
        | inl (j, h) ↦
            subst (λ m. IsQuiet id s (after_failure st digest wording r m s)) (sym h)
              (after_save-IsQuiet id (record r { job = j }) s
                (key-same st.outbox digest r j id key
                  (failed_key r.job j now (some message) (is_permanent message) draw h))
                keyed)
      ]
