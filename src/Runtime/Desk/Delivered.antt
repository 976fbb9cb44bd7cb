-- ===== src/Runtime/Desk/Delivered.antt =====
-- A drain sends what is due.
use yente.Prelude.{
  Text, ℕ, suc, ◌+◌, ◌≤◌, ◌≡◌, refl, sym, ap, subst, ◌∙◌, false, none, some, List, [], ◌∷◌, same,
  same_iff, length, arith, ok,
}
use yente.Domain.Outbox.{Job, Draw, sent, begin_send, is_sending_halted}
use yente.Store.Cells.Order.{AllRows, AllRows-map}
use yente.Store.Cells.Sums.{IsDistinct}
use yente.Store.Keys.{message_key}
use yente.Store.Outbox.{Row, key_of, is_sent, claimable}
use yente.Store.Outbox.Line.{IsClaimable, claimable_lem}
use yente.Runtime.Desk.{
  Stores, Reply, Answer, accepts, Desk, Books, after_booking, after_delivery, after_sending, settle,
  after_claim, send_claimed, send_one, send_all, record_delivery, after_message, drain_rows,
  drain_outbox,
}
use yente.Runtime.Desk
use yente.Runtime.Desk.Copies.{copies, row_ids, claimable_once}
use yente.Runtime.Desk.Sending.{claimed_key, claimed_state, save-over, key-same, stored_here}
use yente.Runtime.Desk.Delivering.{
  sent_job, mark_sent-sending, sent_key, sent_row, out, Advances, send_one-Advances,
}
use yente.Runtime.Desk.Events.{Event, run, run-IsOnce, start-IsOnce}
use yente.Runtime.Desk.Once.{startable_unsent, advanced-elsewhere, head_once}

module _ {O P W M I : Type 0} (st : Stores O P W M I) (digest : Text → Text)
    (wording : Desk.Error → Text) where
  -- The claim of a row is written.
  abbrev claimed_desk : Text → Row → Desk st digest wording → Desk st digest wording
  claimed_desk id c s = record s { outbox = st.outbox.put s.outbox id c }

  send_one-accepted :
      (id : Text) (r : Row) (j : Job) (x : ℕ) (xs : Text) (now : ℕ) (transport : Row → Reply)
      (s : Desk st digest wording)
      → st.outbox.get s.outbox id ≡ some r
      → key_of st.outbox digest r ≡ ok id
      → begin_send r.job now ≡ ok j
      → (transport (record r { job = j })).answer ≡ accepts (some (x ∷ xs))
      → send_one st digest wording id r now transport s ≡ (
          let c = record r { job = j } in
          let b =
            record_delivery st digest wording
              (sent_row st digest wording c (x ∷ xs) now)
              now
              s.books in
          after_booking st digest wording c now
            (transport c).draw
            b.books
            b.failed
            (out st digest wording id c (x ∷ xs) now s.books (claimed_desk id c s)))
  unfolding send_one out sent_job
  send_one-accepted id r j x xs now transport s g key begins answer =
      let c = record r { job = j } in
      let own = key-same st.outbox digest r j id key (claimed_key r.job j now begins) in
      let (in_flight, valid) = claimed_state r.job j now begins in
      let t = claimed_desk id c s in
      let taken = record t { taken = id ∷ t.taken } in
      let d = sent_row st digest wording c (x ∷ xs) now in
      let draw = (transport c).draw in
      ap (λ m. send_claimed st digest wording id r now transport m s) begins
      ∙ ap (λ m. after_claim st digest wording id c now transport m s)
          (save-over st.outbox digest id c r s.outbox own g (startable_unsent r.job now j begins))
      ∙ ap (λ a. settle st digest wording id c now draw a t) answer
      ∙ ap (λ m. after_sending st digest wording c now draw m taken)
          (mark_sent-sending j x xs now in_flight valid)
      ∙ ap (λ m. after_delivery st digest wording c d now draw m taken)
          (save-over st.outbox digest id d c t.outbox
            (sent_key st digest wording id c (x ∷ xs) now own)
            (stored_here st digest wording s.outbox id c) (ap is_sent in_flight))

  -- The row is that of a letter about no match, and the transport takes it under an id that can be kept.
  pub record IsAccepted (now : ℕ) (transport : Row → Reply) (a : Text × Row) : Type 0 where
    pub alone : a.1.context ≡ none
    pub first : ℕ
    pub others : Text
    pub accepted :
        (j : Job)
        → begin_send a.1.job now ≡ ok j
        → (transport (record a.1 { job = j })).answer ≡ accepts (some (first ∷ others))
    pub message : Text
    pub kept_under : message_key digest (first ∷ others) ≡ ok message

  -- A row stands under the id, and it is sent.
  abbrev pub IsSentAt : Desk st digest wording → Text → Type 0
  IsSentAt s id = (x : Row) × (st.outbox.get s.outbox id ≡ some x) × (x.job.state ≡ sent)

  booked_alone :
      (d : Row) (m : Text) (now : ℕ) (b : Books st digest wording)
      → d.context ≡ none
      → (after_message st digest wording (ok m) d now b).failed ≡ none
  booked_alone d m now b h = ground (arith, h)

  recorded :
      (c : Row) (j : Job) (x : ℕ) (xs m : Text) (now : ℕ) (b : Books st digest wording)
      → c.context ≡ none
      → message_key digest (x ∷ xs) ≡ ok m
      → (record_delivery st digest wording
          (sent_row st digest wording (record c { job = j }) (x ∷ xs) now)
          now
          b).failed
        ≡ none
  unfolding record_delivery sent_job
  recorded c j x xs m now b h k =
      let d = sent_row st digest wording (record c { job = j }) (x ∷ xs) now in
      ap (λ o. (after_message st digest wording o d now b).failed) k ∙ booked_alone d m now b h

  -- What one delivery leaves.
  abbrev Delivers : Text → Desk st digest wording → Desk st digest wording → Type 0
  Delivers id s t = (t.failed ≡ s.failed) × (t.sent ≡ suc s.sent) × IsSentAt t id

  booked-Delivers :
      (id : Text) (c : Row) (message : Text) (now : ℕ) (draw : Draw)
      (books : Books st digest wording) (s : Desk st digest wording)
      → Delivers id s (
          after_booking st digest wording c now draw books none
            (out st digest wording id c message now s.books (claimed_desk id c s)))
  unfolding out sent_job
  booked-Delivers id c message now draw books s =
      let d = sent_row st digest wording c message now in
      (refl, refl, (d, stored_here st digest wording (st.outbox.put s.outbox id c) id d, refl))

  send_one-Delivers :
      (id : Text) (r : Row) (j : Job) (now : ℕ) (transport : Row → Reply)
      (s : Desk st digest wording)
      → st.outbox.get s.outbox id ≡ some r
      → key_of st.outbox digest r ≡ ok id
      → begin_send r.job now ≡ ok j
      → IsAccepted now transport (id, r)
      → Delivers id s (send_one st digest wording id r now transport s)
  send_one-Delivers id r j now transport s g key begins a =
      let c = record r { job = j } in
      let message = a.first ∷ a.others in
      let b =
        record_delivery st digest wording (sent_row st digest wording c message now) now s.books in
      subst (Delivers id s)
        (sym (
          send_one-accepted id r j a.first a.others now transport s g key begins
            (a.accepted j begins)))
        (subst
          (λ f. Delivers id s (
            after_booking st digest wording c now (transport c).draw b.books f
              (out st digest wording id c message now s.books (claimed_desk id c s))))
          (sym (recorded r j a.first a.others a.message now s.books a.alone a.kept_under))
          (booked-Delivers id c message now (transport c).draw b.books s))

  -- The row stands under its id, which is its key, and can be claimed.
  record IsDue (now : ℕ) (s : Desk st digest wording) (a : Text × Row) : Type 0 where
    pub stored : st.outbox.get s.outbox a.0 ≡ some a.1
    pub key : key_of st.outbox digest a.1 ≡ ok a.0
    pub job : Job
    pub begins : begin_send a.1.job now ≡ ok job

  still-IsDue :
      (now : ℕ) (id : Text) (s t : Desk st digest wording)
      → Advances st digest wording id s t
      → (rest : List (Text × Row)) → copies id (row_ids rest) ≡ 0
      → AllRows (IsDue now s) rest
      → AllRows (IsDue now t) rest
  unfolding AllRows copies row_ids
  still-IsDue now id s t a [] none_left h = tt
  still-IsDue now id s t a (b ∷ rest) none_left (due, h) =
      let apart : same id b.0 ≡ false = ground (arith, same_iff b.0 id, same_iff id b.0) in
      (
        record {
          stored = advanced-elsewhere st digest wording id b.0 s t a apart ∙ due.stored;
          key = due.key;
          job = due.job;
          begins = due.begins;
        },
        still-IsDue now id s t a rest (ground arith) h,
      )

  -- All rows are sent, and the rows under other ids are as they were.
  record AllDelivered (rows : List (Text × Row)) (s t : Desk st digest wording) : Type 0 where
    pub no_error : t.failed ≡ none
    pub counted : t.sent ≡ s.sent + length rows
    pub all_sent : AllRows (λ a. IsSentAt t a.0) rows
    pub elsewhere :
        (k : Text)
        → copies k (row_ids rows) ≡ 0
        → st.outbox.get t.outbox k ≡ st.outbox.get s.outbox k

  not_among :
      (id k : Text) (l : List Text) → copies k (id ∷ l) ≡ 0 → (same id k ≡ false) × (copies k l ≡ 0)
  unfolding copies
  not_among id k l h = ground (arith, h)

  one_more :
      (id : Text) (r : Row) (rest : List (Text × Row)) (s t u : Desk st digest wording)
      → Delivers id s t
      → Advances st digest wording id s t
      → copies id (row_ids rest) ≡ 0
      → AllDelivered rest t u
      → AllDelivered ((id, r) ∷ rest) s u
  unfolding AllRows row_ids
  one_more id r rest s t u (failed, counted, (x, g, final)) step last h = record {
    no_error = h.no_error;
    counted = omega (arith, h.counted, counted);
    all_sent = ((x, h.elsewhere id last ∙ g, final), h.all_sent);
    elsewhere = λ k n.
        let (apart, others) = not_among id k (row_ids rest) n in
        h.elsewhere k others ∙ advanced-elsewhere st digest wording id k s t step apart;
  }

  send_all-AllDelivered :
      (rows : List (Text × Row)) (now : ℕ) (transport : Row → Reply) (s : Desk st digest wording)
      → ((k : Text) → copies k (row_ids rows) ≤ 1)
      → s.failed ≡ none
      → AllRows (IsDue now s) rows
      → AllRows (IsAccepted now transport) rows
      → AllDelivered rows s (send_all st digest wording rows now transport s)
  unfolding send_all AllRows
  send_all-AllDelivered [] now transport s apart clear due taken = record {
    no_error = clear;
    counted = omega arith;
    all_sent = tt;
    elsewhere = λ k n. refl;
  }
  send_all-AllDelivered ((id, r) ∷ rest) now transport s apart clear (due, others)
        (accepted, more) =
      let t = send_one st digest wording id r now transport s in
      let step =
        send_one-Advances st digest wording id r now transport s due.stored due.key
          (startable_unsent r.job now due.job due.begins) in
      let one =
        send_one-Delivers id r due.job now transport s due.stored due.key due.begins accepted in
      let (last, single) = head_once st digest wording id r rest apart in
      subst
        (λ o.
          AllDelivered ((id, r) ∷ rest) s
            (elim o [ some x ↦ s | none ↦ send_all st digest wording rest now transport t ]))
        (sym clear)
        (one_more id r rest s t _ one step last (
          send_all-AllDelivered rest now transport t single (one.0 ∙ clear)
            (still-IsDue now id s t step rest last others) more))

  drained_rows :
      ((db : O) → IsDistinct (st.outbox.ids db))
      → (now : ℕ) (transport : Row → Reply) (s : Desk st digest wording) (rows : List (Text × Row))
      → ((k : Text) (r : Row)
          → st.outbox.get s.outbox k ≡ some r
          → key_of st.outbox digest r ≡ ok k)
      → claimable st.outbox digest s.outbox now 50 ≡ ok rows
      → AllRows (IsAccepted now transport) rows
      → AllDelivered rows
          (record s { sent = 0; failed = none })
          (send_all st digest wording rows now transport (record s { sent = 0; failed = none }))
  drained_rows distinct now transport s rows keyed found accepted =
      let fresh = record s { sent = 0; failed = none } in
      let (few, ordered, ready) = claimable_lem st.outbox digest s.outbox now 50 rows found in
      send_all-AllDelivered rows now transport fresh
        (λ k. claimable_once k st.outbox s.outbox digest now 50 rows (distinct s.outbox) found) refl
        (AllRows-map (IsClaimable st.outbox digest s.outbox now) (IsDue now fresh)
          (λ a p.
            let (j, begins, f) = p.begins in
            record { stored = p.stored; key = keyed a.0 a.1 p.stored; job = j; begins = begins })
          rows ready)
        accepted

  -- On a desk that any calls reached from an empty outbox, a drain sends everything that is claimable, when
  -- the transport takes it and no letter is about a match: no error ends it, its count is that of the
  -- rows, and each of them is sent.
  pub drain_outbox-sends :
      ((db : O) → IsDistinct (st.outbox.ids db))
      → (es : List (Event P)) (start : Desk st digest wording) (now : ℕ) (transport : Row → Reply)
        (rows : List (Text × Row))
      → ((k : Text) → st.outbox.get start.outbox k ≡ none)
      → start.taken ≡ []
      → claimable st.outbox digest (run st digest wording start es).outbox now 50 ≡ ok rows
      → AllRows (IsAccepted now transport) rows
      → let t =
          drain_outbox st digest wording none now transport (run st digest wording start es) in
        (t.failed ≡ none) × (t.sent ≡ length rows) × AllRows (λ a. IsSentAt t a.0) rows
  unfolding drain_outbox is_sending_halted
  drain_outbox-sends distinct es start now transport rows empty fresh found accepted =
      let s = run st digest wording start es in
      let h =
        drained_rows distinct now transport s rows
          (run-IsOnce st digest wording distinct es start
            (start-IsOnce st digest wording start empty fresh)).keyed
          found accepted in
      let D = λ (t : Desk st digest wording).
        (t.failed ≡ none) × (t.sent ≡ length rows) × AllRows (λ a. IsSentAt t a.0) rows in
      subst
        (λ m.
          D (drain_rows st digest wording m now transport (record s { sent = 0; failed = none })))
        (sym found) (h.no_error, omega (arith, h.counted), h.all_sent)
