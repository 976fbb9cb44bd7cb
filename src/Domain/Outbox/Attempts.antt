-- ===== src/Domain/Outbox/Attempts.antt =====
-- How often a job is attempted and sent (INV-10), and what no call changes.
use yente.Prelude.{
  Text, ℕ, suc, ◌+◌, ◌≤◌, ◌<◌, ◌≡◌, refl, sym, subst, inl, inr, Bool, true, false, Option, none,
  some, List, [], ◌∷◌, ◌++◌, ok, arith, is_some,
}
use yente.Domain.Outbox.{
  Job, State, Email, Draw, Event, Reason, bury, died, pending, sending, sent, retry_wait, dead,
  send_started, was_sent, enqueue_email, begin_send, mark_sent, mark_failed, recover_stalled_send,
}
use yente.Domain.Outbox.Cases.{waiting, mark_failed_cases, recover_stalled_send_cases}
use yente.Domain.Outbox.Runs.{
  Call, begins, reports_sent, fails, recovers, call, Reached, queued, next,
}

abbrev pub is_start : Event → Bool
is_start (send_started n) = true
is_start _ = false

abbrev pub is_sent_event : Event → Bool
is_sent_event (was_sent id n) = true
is_sent_event _ = false

abbrev pub tally : Bool → ℕ → ℕ
tally true n = suc n
tally false n = n

-- How many events of a kind a history holds.
unfoldable pub count : (Event → Bool) → List (Event × ℕ) → ℕ
count p [] = 0
count p ((e, at) ∷ h) = tally (p e) (count p h)

count-append_one :
    (p : Event → Bool) (h : List (Event × ℕ)) (e : Event) (at : ℕ)
    → count p (h ++ (e, at) ∷ []) ≡ tally (p e) (count p h)
unfolding count
count-append_one p [] e at = refl
count-append_one p ((f, t) ∷ h) e at = ground (arith, count-append_one p h e at)

-- Where a job may stand between its attempts.
abbrev pub Standing : State → Job → Type 0
Standing pending j = (j.attempts ≡ 0) × (count is_sent_event j.history ≡ 0) × (j.message_id ≡ none)
Standing sending j = (0 < j.attempts) × (count is_sent_event j.history ≡ 0) × (j.message_id ≡ none)
Standing retry_wait j =
    (j.attempts < j.max_attempts) × (count is_sent_event j.history ≡ 0) × (j.message_id ≡ none)
Standing dead j = (0 < j.attempts) × (count is_sent_event j.history ≡ 0) × (j.message_id ≡ none)
Standing sent j =
    (0 < j.attempts) × (count is_sent_event j.history ≡ 1) × (is_some j.message_id ≡ true)

pub record IsCounted (j : Job) : Type 0 where
  pub some_attempt : 0 < j.max_attempts
  pub capped : j.attempts ≤ j.max_attempts
  pub counted : count is_start j.history ≡ j.attempts
  pub standing : Standing j.state j

enqueue_email-IsCounted : (e : Email) (j : Job) → enqueue_email e ≡ ok j → IsCounted j
unfolding enqueue_email count
enqueue_email-IsCounted e j k = ground arith

begin_send-IsCounted : (j k : Job) (now : ℕ) → IsCounted j → begin_send j now ≡ ok k → IsCounted k
unfolding begin_send
begin_send-IsCounted j k now h e = ground (
  arith,
  count-append_one is_start j.history (send_started (j.attempts + 1)) now,
  count-append_one is_sent_event j.history (send_started (j.attempts + 1)) now,
)

mark_sent-IsCounted :
    (j k : Job) (id : Option Text) (at : ℕ) → IsCounted j → mark_sent j id at ≡ ok k → IsCounted k
unfolding mark_sent
mark_sent-IsCounted j k none at h e = cc
mark_sent-IsCounted j k (some []) at h e = cc
mark_sent-IsCounted j k (some (c ∷ t)) at h e = ground (
  arith,
  count-append_one is_start j.history (was_sent (c ∷ t) j.attempts) at,
  count-append_one is_sent_event j.history (was_sent (c ∷ t) j.attempts) at,
)

Standing-at : {j : Job} (s : State) → IsCounted j → j.state ≡ s → Standing s j
Standing-at {j} s h e = subst (λ t. Standing t j) e h.standing

bury-IsCounted :
    (j : Job) (r : Reason) (error : Option Text) (at : ℕ)
    → IsCounted j
    → j.state ≡ sending
    → IsCounted (bury j r error at)
bury-IsCounted j r error at h s = ground (
  arith,
  Standing-at sending h s,
  count-append_one is_start j.history (died r) at,
  count-append_one is_sent_event j.history (died r) at,
)

waiting-IsCounted :
    (j : Job) (error : Option Text) (available : ℕ) (e : Event) (at : ℕ)
    → IsCounted j
    → j.state ≡ sending
    → j.attempts < j.max_attempts
    → (is_start e ≡ false) × (is_sent_event e ≡ false)
    → IsCounted (waiting j error available e at)
waiting-IsCounted j error available e at h s few plain = ground (
  arith,
  Standing-at sending h s,
  count-append_one is_start j.history e at,
  count-append_one is_sent_event j.history e at,
)

mark_failed-IsCounted :
    (j k : Job) (at : ℕ) (error : Option Text) (permanent : Bool) (draw : Draw)
    → IsCounted j
    → mark_failed j at error permanent draw ≡ ok k
    → IsCounted k
mark_failed-IsCounted j k at error permanent draw h e =
    let (s, c) = mark_failed_cases j k at error permanent draw e in
    elim c [
      | inl (r, f) ↦ subst IsCounted (sym f) (bury-IsCounted j r error at h s)
      | inr (delay, few, b, f) ↦
          subst IsCounted (sym f) (waiting-IsCounted j error _ _ at h s few (refl, refl))
    ]

recover_stalled_send-IsCounted :
    (j k : Job) (now stalled_after : ℕ) (draw : Draw)
    → IsCounted j
    → recover_stalled_send j now stalled_after draw ≡ ok k
    → IsCounted k
recover_stalled_send-IsCounted j k now stalled_after draw h e =
    elim (recover_stalled_send_cases j k now stalled_after draw e) [
      | inl f ↦ subst IsCounted (sym f) h
      | inr (s, c) ↦ elim c [
        | inl (r, f) ↦ subst IsCounted (sym f) (bury-IsCounted j r j.last_error now h s)
        | inr (delay, few, b, f) ↦
            subst IsCounted (sym f) (waiting-IsCounted j j.last_error _ _ now h s few (refl, refl))
      ]
    ]

call-IsCounted : (c : Call) (j k : Job) → IsCounted j → call c j ≡ ok k → IsCounted k
unfolding call
call-IsCounted (begins now) j k h e = begin_send-IsCounted j k now h e
call-IsCounted (reports_sent id at) j k h e = mark_sent-IsCounted j k id at h e
call-IsCounted (fails at error permanent draw) j k h e =
    mark_failed-IsCounted j k at error permanent draw h e
call-IsCounted (recovers now stalled_after draw) j k h e =
    recover_stalled_send-IsCounted j k now stalled_after draw h e

-- Of every job that is reached from an enqueued one: the attempts are the sends that its history
-- counts, never more than allowed; the history holds one successful send if the job is sent, with its
-- message id, and none otherwise.
pub Reached-IsCounted : {m : Email} (j : Job) → Reached m j → IsCounted j
Reached-IsCounted {m} j (queued e) = enqueue_email-IsCounted m j e
Reached-IsCounted j (next {j = i} c r e) = call-IsCounted c i j (Reached-IsCounted i r) e
