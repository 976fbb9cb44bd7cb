-- ===== src/Runtime/Desk/Delivering.antt =====
-- One row that a drain claims: it is delivered, or no letter of it is taken.
use yente.Prelude.{
  Text, ℕ, ◌≤◌, ◌≡◌, refl, sym, ap, subst, ◌∙◌, false, Option, none, some, [], ◌∷◌, ◌++◌, same,
  arith, Result-cases, inl, inr, ◌⊎◌, ok, max_date,
}
use yente.Domain.Outbox.{Job, Draw, sending, sent, was_sent, begin_send, mark_sent}
use yente.Store.Outbox.{Row, key_of, is_sent}
use yente.Runtime.Desk.{
  Stores, Reply, Answer, accepts, throws, Desk, Books, fail_one, after_booking, after_delivery,
  after_sending, settle, after_claim, send_claimed, send_one, record_delivery,
}
use yente.Runtime.Desk
use yente.Runtime.Desk.Sending.{
  IsQuiet, KeyedAt, claimed_key, claimed_state, save-over, key-same, some_row, unchanged,
  stored_here, stored_elsewhere, written, fail_one-IsQuiet,
}

unfoldable pub sent_job : Job → Text → ℕ → Job
sent_job j id now = record j {
  state = sent;
  message_id = some id;
  sent_at = some now;
  last_error = none;
  history = j.history ++ (was_sent id j.attempts, now) ∷ [];
}

pub mark_sent-sending :
    (j : Job) (c : ℕ) (cs : Text) (now : ℕ)
    → j.state ≡ sending
    → now ≤ max_date
    → mark_sent j (some (c ∷ cs)) now ≡ ok (sent_job j (c ∷ cs) now)
unfolding mark_sent sent_job
mark_sent-sending j c cs now s valid = ground arith

module _ {O P W M I : Type 0} (st : Stores O P W M I) (digest : Text → Text)
    (wording : Desk.Error → Text) where
  -- The transport took the letter of the row, which is sent.
  pub record IsDelivered (id : Text) (s t : Desk st digest wording) : Type 0 where
    pub elsewhere :
        (k : Text) → same id k ≡ false → st.outbox.get t.outbox k ≡ st.outbox.get s.outbox k
    pub taken_more : t.taken ≡ id ∷ s.taken
    pub row : Row
    pub stored : st.outbox.get t.outbox id ≡ some row
    pub is_final : row.job.state ≡ sent
    pub keyed : key_of st.outbox digest row ≡ ok id

  abbrev pub Advances : Text → Desk st digest wording → Desk st digest wording → Type 0
  Advances id s t = IsQuiet st digest wording id s t ⊎ IsDelivered id s t

  quiet_then_quiet :
      (id : Text) (s t u : Desk st digest wording)
      → IsQuiet st digest wording id s t
      → IsQuiet st digest wording id t u
      → IsQuiet st digest wording id s u
  quiet_then_quiet id s t u h k = record {
    elsewhere = λ j n. k.elsewhere j n ∙ h.elsewhere j n;
    taken_same = k.taken_same ∙ h.taken_same;
    keyed = k.keyed;
    sent_stays = λ x g f. k.sent_stays x (h.sent_stays x g f) f;
  }

  quiet_then :
      (id : Text) (s t u : Desk st digest wording)
      → IsQuiet st digest wording id s t
      → Advances id t u
      → Advances id s u
  quiet_then id s t u h (inl k) = inl (quiet_then_quiet id s t u h k)
  quiet_then id s t u h (inr k) = inr (record {
    elsewhere = λ j n. k.elsewhere j n ∙ h.elsewhere j n;
    taken_more = k.taken_more ∙ ap (λ l. id ∷ l) h.taken_same;
    row = k.row;
    stored = k.stored;
    is_final = k.is_final;
    keyed = k.keyed;
  })

  IsDelivered-then :
      (id : Text) (s t u : Desk st digest wording)
      → IsDelivered id s t
      → IsQuiet st digest wording id t u
      → IsDelivered id s u
  IsDelivered-then id s t u h k = record {
    elsewhere = λ j n. k.elsewhere j n ∙ h.elsewhere j n;
    taken_more = k.taken_same ∙ h.taken_more;
    row = h.row;
    stored = k.sent_stays h.row h.stored h.is_final;
    is_final = h.is_final;
    keyed = h.keyed;
  }

  -- The row is claimed, and the transport is about to be called.
  pub record IsClaimed (id : Text) (r : Row) (now : ℕ) (s : Desk st digest wording) : Type 0 where
    pub here : st.outbox.get s.outbox id ≡ some r
    pub key : key_of st.outbox digest r ≡ ok id
    pub in_flight : r.job.state ≡ sending
    pub valid : now ≤ max_date

  keyed_by :
      (id : Text) (r : Row) (s : Desk st digest wording)
      → st.outbox.get s.outbox id ≡ some r
      → key_of st.outbox digest r ≡ ok id
      → KeyedAt st digest wording id s
  keyed_by id r s g key x h =
      subst (λ y. key_of st.outbox digest y ≡ ok id) (some_row st digest wording (sym g ∙ h)) key

  -- The row as it is written once the letter is out.
  abbrev pub sent_row : Row → Text → ℕ → Row
  sent_row r message now = record r { job = sent_job r.job message now }

  unfoldable pub out :
      Text
      → Row
      → Text
      → ℕ
      → Books st digest wording
      → Desk st digest wording
      → Desk st digest wording
  out id r message now books s = record s {
    outbox = st.outbox.put s.outbox id (sent_row r message now);
    taken = id ∷ s.taken;
    books = books;
  }

  pub sent_key :
      (id : Text) (r : Row) (message : Text) (now : ℕ)
      → key_of st.outbox digest r ≡ ok id
      → key_of st.outbox digest (sent_row r message now) ≡ ok id
  unfolding sent_job
  sent_key id r message now key =
      key-same st.outbox digest r (sent_job r.job message now) id key refl

  out-IsDelivered :
      (id : Text) (r : Row) (message : Text) (now : ℕ) (books : Books st digest wording)
      (s : Desk st digest wording)
      → key_of st.outbox digest r ≡ ok id
      → IsDelivered id s (out id r message now books s)
  unfolding out sent_job
  out-IsDelivered id r message now books s key = record {
    elsewhere = λ k n. stored_elsewhere st digest wording s.outbox id k (sent_row r message now) n;
    taken_more = refl;
    row = sent_row r message now;
    stored = stored_here st digest wording s.outbox id (sent_row r message now);
    is_final = refl;
    keyed = sent_key id r message now key;
  }

  after_booking-IsDelivered :
      (id : Text) (r : Row) (message : Text) (now : ℕ) (draw : Draw)
      (books : Books st digest wording) (failed : Option Desk.Error) (s : Desk st digest wording)
      → key_of st.outbox digest r ≡ ok id
      → IsDelivered id s
          (after_booking st digest wording r now draw books failed (out id r message now s.books s))
  unfolding out
  after_booking-IsDelivered id r message now draw books none s key =
      let d = out-IsDelivered id r message now books s key in
      record {
        elsewhere = d.elsewhere;
        taken_more = d.taken_more;
        row = d.row;
        stored = d.stored;
        is_final = d.is_final;
        keyed = d.keyed;
      }
  after_booking-IsDelivered id r message now draw books (some x) s key =
      let d = out-IsDelivered id r message now books s key in
      IsDelivered-then id s (out id r message now books s) _ d (
        fail_one-IsQuiet st digest wording id r now draw (wording x) (out id r message now books s)
          key (keyed_by id d.row (out id r message now books s) d.stored d.keyed))

  accepted-IsDelivered :
      (id : Text) (r : Row) (c : ℕ) (cs : Text) (now : ℕ) (draw : Draw) (s : Desk st digest wording)
      → IsClaimed id r now s
      → IsDelivered id s (settle st digest wording id r now draw (accepts (some (c ∷ cs))) s)
  unfolding out sent_job
  accepted-IsDelivered id r c cs now draw s h =
      let taken = record s { taken = id ∷ s.taken } in
      let d = sent_row r (c ∷ cs) now in
      let b = record_delivery st digest wording d now s.books in
      let saved =
        save-over st.outbox digest id d r s.outbox (sent_key id r (c ∷ cs) now h.key) h.here
          (ap is_sent h.in_flight) in
      subst (λ m. IsDelivered id s (after_sending st digest wording r now draw m taken))
        (sym (mark_sent-sending r.job c cs now h.in_flight h.valid))
        (subst (λ m. IsDelivered id s (after_delivery st digest wording r d now draw m taken))
          (sym saved) (after_booking-IsDelivered id r (c ∷ cs) now draw b.books b.failed s h.key))

  settle-Advances :
      (id : Text) (r : Row) (now : ℕ) (draw : Draw) (answer : Answer) (s : Desk st digest wording)
      → IsClaimed id r now s
      → Advances id s (settle st digest wording id r now draw answer s)
  unfolding mark_sent
  settle-Advances id r now draw (throws message) s h = inl (
      fail_one-IsQuiet st digest wording id r now draw message s h.key
        (keyed_by id r s h.here h.key))
  settle-Advances id r now draw (accepts none) s h =
      inl
        (fail_one-IsQuiet st digest wording id r now draw _ s h.key (keyed_by id r s h.here h.key))
  settle-Advances id r now draw (accepts (some [])) s h =
      inl
        (fail_one-IsQuiet st digest wording id r now draw _ s h.key (keyed_by id r s h.here h.key))
  settle-Advances id r now draw (accepts (some (c ∷ cs))) s h =
      inr (accepted-IsDelivered id r c cs now draw s h)

  claimed-Advances :
      (id : Text) (r : Row) (j : Job) (now : ℕ) (transport : Row → Reply)
      (s : Desk st digest wording)
      → st.outbox.get s.outbox id ≡ some r
      → key_of st.outbox digest r ≡ ok id
      → is_sent r.job.state ≡ false
      → begin_send r.job now ≡ ok j
      → Advances id s (send_claimed st digest wording id r now transport (ok j) s)
  claimed-Advances id r j now transport s g key unsent h =
      let c = record r { job = j } in
      let own = key-same st.outbox digest r j id key (claimed_key r.job j now h) in
      let t = record s { outbox = st.outbox.put s.outbox id c } in
      let (in_flight, valid) = claimed_state r.job j now h in
      let still = λ (x : Row) (f : st.outbox.get s.outbox id ≡ some x).
        subst (λ (y : Row). is_sent y.job.state ≡ false) (some_row st digest wording (sym g ∙ f))
          unsent in
      subst (λ m. Advances id s (after_claim st digest wording id c now transport m s))
        (sym (save-over st.outbox digest id c r s.outbox own g unsent))
        (quiet_then id s t _ (written st digest wording id c s t own refl refl still) (
          settle-Advances id c now (transport c).draw (transport c).answer t (record {
            here = stored_here st digest wording s.outbox id c;
            key = own;
            in_flight = in_flight;
            valid = valid;
          })))

  pub send_one-Advances :
      (id : Text) (r : Row) (now : ℕ) (transport : Row → Reply) (s : Desk st digest wording)
      → st.outbox.get s.outbox id ≡ some r
      → key_of st.outbox digest r ≡ ok id
      → is_sent r.job.state ≡ false
      → Advances id s (send_one st digest wording id r now transport s)
  unfolding send_one
  send_one-Advances id r now transport s g key unsent = elim (Result-cases (begin_send r.job now)) [
    | inr (x, h) ↦
        subst (λ m. Advances id s (send_claimed st digest wording id r now transport m s)) (sym h)
          (inl (
            unchanged st digest wording id s (record s { failed = some (Desk.bad_job x) })
              (keyed_by id r s g key) refl refl))
    | inl (j, h) ↦
        subst (λ m. Advances id s (send_claimed st digest wording id r now transport m s)) (sym h)
          (claimed-Advances id r j now transport s g key unsent h)
  ]
