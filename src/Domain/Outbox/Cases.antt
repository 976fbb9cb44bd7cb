-- ===== src/Domain/Outbox/Cases.antt =====
-- What the reports of a failed and of a stalled attempt return when they do not throw.
use yente.Prelude.{
  Text, ℕ, ◌+◌, ◌≤◌, ◌<◌, ◌≡◌, ◌⊎◌, inl, inr, Bool, true, false, Option, [], ◌∷◌, ◌++◌, ok, arith,
  Result-cases,
}
use yente.Domain.Outbox.{
  Job, Draw, Event, Reason, sending, retry_wait, retry_scheduled, recovered_stalled_send,
  mark_failed, recover_stalled_send, backoff_ms, schedule_retry, recover_later, bury,
  permanent_failure, attempts_exhausted, stalled_attempts_exhausted, started_at, still_running,
}

-- Back in line until `available`, with one more event.
abbrev pub waiting : Job → Option Text → ℕ → Event → ℕ → Job
waiting j error available event at = record j {
  last_error = error;
  state = retry_wait;
  available_at = available;
  history = j.history ++ (event, at) ∷ [];
}

schedule_retry_cases :
    (j k : Job) (at : ℕ) (error : Option Text) (draw : Draw)
    → schedule_retry j at error draw ≡ ok k
    → (delay : ℕ) × (backoff_ms j.attempts j.base_ms j.max_ms draw ≡ ok delay)
      × (k ≡ waiting j error (at + delay) (retry_scheduled j.attempts delay (at + delay) error) at)
schedule_retry_cases j k at error draw e =
    elim (Result-cases (backoff_ms j.attempts j.base_ms j.max_ms draw)) [
      | inl (delay, b) ↦ (delay, b, ground arith)
      | inr (x, b) ↦ absurd (ground arith)
    ]

recover_later_cases :
    (j k : Job) (at : ℕ) (draw : Draw)
    → recover_later j at draw ≡ ok k
    → (delay : ℕ) × (backoff_ms j.attempts j.base_ms j.max_ms draw ≡ ok delay)
      × (k
          ≡ waiting j j.last_error (at + delay) (recovered_stalled_send j.attempts (at + delay)) at)
recover_later_cases j k at draw e =
    elim (Result-cases (backoff_ms j.attempts j.base_ms j.max_ms draw)) [
      | inl (delay, b) ↦ (delay, b, ground arith)
      | inr (x, b) ↦ absurd (ground arith)
    ]

failed_transient :
    (j k : Job) (at : ℕ) (error : Option Text) (draw : Draw)
    → mark_failed j at error false draw ≡ ok k
    → (j.state ≡ sending)
      × (((j.max_attempts ≤ j.attempts)
            × (k ≡ bury j (attempts_exhausted j.attempts error) error at))
          ⊎ ((j.attempts < j.max_attempts) × (schedule_retry j at error draw ≡ ok k)))
unfolding mark_failed
failed_transient j k at error draw e = ground arith

-- A failure ends the job, or puts it back in line while attempts are left.
pub mark_failed_cases :
    (j k : Job) (at : ℕ) (error : Option Text) (permanent : Bool) (draw : Draw)
    → mark_failed j at error permanent draw ≡ ok k
    → (j.state ≡ sending)
      × (((r : Reason) × (k ≡ bury j r error at))
          ⊎ ((delay : ℕ) × (j.attempts < j.max_attempts)
              × (backoff_ms j.attempts j.base_ms j.max_ms draw ≡ ok delay)
              × (k
                  ≡ waiting j error
                      (at + delay)
                      (retry_scheduled j.attempts delay (at + delay) error)
                      at)))
unfolding mark_failed
mark_failed_cases j k at error true draw e =
    (ground arith, inl (permanent_failure error, ground arith))
mark_failed_cases j k at error false draw e =
    let (s, c) = failed_transient j k at error draw e in
    (
      s,
      elim c [
        | inl (all, f) ↦ inl (attempts_exhausted j.attempts error, f)
        | inr (few, f) ↦
            let (delay, b, g) = schedule_retry_cases j k at error draw f in inr (delay, few, b, g)
      ],
    )

recovered :
    (j k : Job) (now stalled_after : ℕ) (draw : Draw)
    → recover_stalled_send j now stalled_after draw ≡ ok k
    → (k ≡ j)
      ⊎ ((j.state ≡ sending)
          × (still_running (started_at j.history) now stalled_after ≡ false)
          × (((j.max_attempts ≤ j.attempts)
                × (k ≡ bury j stalled_attempts_exhausted j.last_error now))
              ⊎ ((j.attempts < j.max_attempts) × (recover_later j now draw ≡ ok k))))
unfolding recover_stalled_send
recovered j k now stalled_after draw e = ground arith

-- So does the recovery of an attempt that has been running too long; any other job is left alone.
pub recover_stalled_send_cases :
    (j k : Job) (now stalled_after : ℕ) (draw : Draw)
    → recover_stalled_send j now stalled_after draw ≡ ok k
    → (k ≡ j)
      ⊎ ((j.state ≡ sending)
          × (((r : Reason) × (k ≡ bury j r j.last_error now))
              ⊎ ((delay : ℕ) × (j.attempts < j.max_attempts)
                  × (backoff_ms j.attempts j.base_ms j.max_ms draw ≡ ok delay)
                  × (k
                      ≡ waiting j j.last_error
                          (now + delay)
                          (recovered_stalled_send j.attempts (now + delay))
                          now))))
recover_stalled_send_cases j k now stalled_after draw e =
    elim (recovered j k now stalled_after draw e) [
      | inl f ↦ inl f
      | inr (s, late, c) ↦ inr (
        s,
        elim c [
          | inl (all, f) ↦ inl (stalled_attempts_exhausted, f)
          | inr (few, f) ↦
              let (delay, b, g) = recover_later_cases j k now draw f in inr (delay, few, b, g)
        ],
      )
    ]
