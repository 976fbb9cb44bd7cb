-- ===== src/Domain/Outbox/Timing.antt =====
-- When a job may be claimed, and what its end and its identity are.
use yente.Prelude.{
  Text, ℕ, zero, suc, ◌+◌, ◌-◌, ◌*◌, ◌/◌, ◌^◌, ◌≤◌, ◌<◌, ◌≡◌, refl, sym, subst, ap, ◌⊎◌, inl, inr,
  ◌↔◌, Bool, true, false, Option, none, some, List, [], ◌∷◌, ◌++◌, ok, err, arith, max_date, min,
}
use yente.Domain.Outbox.{
  Job, Draw, Event, sending, send_started, dead, retry_wait, is_terminal, not_due, begin_send,
  mark_sent, mark_failed, recover_stalled_send, backoff_ms, backoff_ceiling, is_due,
}
use yente.Domain.Outbox.Cases.{waiting, mark_failed_cases, recover_stalled_send_cases}
use yente.Domain.Outbox.Runs.{Call, begins, reports_sent, fails, recovers, call, kept, run}

abbrev claimed : Job → ℕ → Job
claimed j now = record j {
  state = sending;
  attempts = j.attempts + 1;
  history = j.history ++ (send_started (j.attempts + 1), now) ∷ [];
}

-- At a valid time the predicate that a worker asks says yes exactly when the claim succeeds.
pub is_due-begin_send :
    (j : Job) (now : ℕ)
    → now ≤ max_date
    → (is_due j now ≡ ok true) ↔ ((k : Job) × (begin_send j now ≡ ok k))
unfolding is_due begin_send
is_due-begin_send j now valid = ((λ h. (claimed j now, ground arith)), (λ (k, h). ground arith))

below_ceiling : (num den c : ℕ) → num < den → num * c / den ≤ c
below_ceiling num den c h = grind arith

-- The part of the window that was drawn, of `2^(n-1)` times the base while that is within the cap, and
-- of the cap from there on.
abbrev pub IsDrawn : ℕ → ℕ → ℕ → Draw → ℕ → Type 0
IsDrawn attempt base max draw wait =
    ((base * 2 ^ (attempt - 1) ≤ max) × (wait ≡ draw.num * (base * 2 ^ (attempt - 1)) / draw.den))
    ⊎ ((max < base * 2 ^ (attempt - 1)) × (wait ≡ draw.num * max / draw.den))

-- The smaller of two, by cases.
min_cases : (a b : ℕ) → ((a ≤ b) × (min a b ≡ a)) ⊎ ((b < a) × (min a b ≡ b))
min_cases a b = omega arith

backoff_ms-IsDrawn :
    (attempt base max : ℕ) (draw : Draw) {delay : ℕ}
    → backoff_ms attempt base max draw ≡ ok delay
    → IsDrawn attempt base max draw delay
unfolding backoff_ms backoff_ceiling
backoff_ms-IsDrawn zero base max draw e = cc
backoff_ms-IsDrawn (suc n) base max draw e = ground (arith, min_cases (base * 2 ^ n) max)

drawn_below :
    (attempt base max : ℕ) (draw : Draw) {delay : ℕ}
    → draw.num < draw.den
    → IsDrawn attempt base max draw delay
    → (delay ≤ base * 2 ^ (attempt - 1)) × (delay ≤ max)
drawn_below attempt base max draw h d = ground (
  arith,
  below_ceiling draw.num draw.den (base * 2 ^ (attempt - 1)) h,
  below_ceiling draw.num draw.den max h,
)

-- Not to be claimed at `now`.
abbrev pub IsHeld : Job → ℕ → Type 0
IsHeld j now = (is_due j now ≡ ok false) × (begin_send j now ≡ err (not_due j.available_at))

held_until :
    (j : Job) (now : ℕ)
    → j.state ≡ retry_wait
    → now ≤ max_date
    → now < j.available_at
    → IsHeld j now
unfolding is_due begin_send
held_until j now s valid early = (ground arith, ground arith)

-- The wait after an attempt that left the job in line: the part of the window that was drawn, no longer
-- than the base doubled with each attempt before, nor than the cap; until it is over the job cannot be
-- claimed.
pub record IsBackingOff (draw : Draw) (j k : Job) (at : ℕ) : Type 0 where
  pub wait : ℕ
  pub waits : k.state ≡ retry_wait
  pub until : k.available_at ≡ at + wait
  pub drawn : IsDrawn j.attempts j.base_ms j.max_ms draw wait
  pub doubling : wait ≤ j.base_ms * 2 ^ (j.attempts - 1)
  pub capped : wait ≤ j.max_ms
  pub held : (now : ℕ) → now ≤ max_date → now < k.available_at → IsHeld k now

waiting-IsBackingOff :
    (j : Job) (error : Option Text) (delay : ℕ) (e : Event) (at : ℕ) (draw : Draw)
    → draw.num < draw.den
    → backoff_ms j.attempts j.base_ms j.max_ms draw ≡ ok delay
    → IsBackingOff draw j (waiting j error (at + delay) e at) at
waiting-IsBackingOff j error delay e at draw fraction b =
    let d = backoff_ms-IsDrawn j.attempts j.base_ms j.max_ms draw {delay = delay} b in
    let within = drawn_below j.attempts j.base_ms j.max_ms draw {delay = delay} fraction d in
    record {
      wait = delay;
      waits = refl;
      until = refl;
      drawn = d;
      doubling = within.0;
      capped = within.1;
      held = λ now valid early. held_until _ now refl valid early;
    }

-- For a draw from [0, 1): an attempt that is reported failed, and a stalled one that is recovered,
-- leaves the job dead, or in line from that moment for the part that was drawn of a wait that doubles
-- with each attempt up to the job's cap; a recovery may also leave it as it was.
pub failure_backs_off :
    (j k : Job) (at stalled_after : ℕ) (error : Option Text) (permanent : Bool) (draw : Draw)
    → draw.num < draw.den
    → ((mark_failed j at error permanent draw ≡ ok k) → (k.state ≡ dead) ⊎ IsBackingOff draw j k at)
      × ((recover_stalled_send j at stalled_after draw ≡ ok k)
          → (k ≡ j) ⊎ ((k.state ≡ dead) ⊎ IsBackingOff draw j k at))
failure_backs_off j k at stalled_after error permanent draw fraction = (
  (λ e. elim (mark_failed_cases j k at error permanent draw e).1 [
    | inl (r, f) ↦ inl (ap (λ (x : Job). x.state) f)
    | inr (delay, few, b, f) ↦ inr (
        subst (λ x. IsBackingOff draw j x at) (sym f)
          (waiting-IsBackingOff j error delay _ at draw fraction b))
  ]),
  (λ e. elim (recover_stalled_send_cases j k at stalled_after draw e) [
    | inl f ↦ inl f
    | inr (s, c) ↦ inr (elim c [
      | inl (r, f) ↦ inl (ap (λ (x : Job). x.state) f)
      | inr (delay, few, b, f) ↦ inr (
          subst (λ x. IsBackingOff draw j x at) (sym f)
            (waiting-IsBackingOff j j.last_error delay _ at draw fraction b))
    ])
  ]),
)

terminal_kept : (c : Call) (j : Job) → is_terminal j.state ≡ true → kept j (call c j) ≡ j
unfolding call begin_send mark_sent mark_failed recover_stalled_send
terminal_kept (begins now) j t = ground arith
terminal_kept (reports_sent none at) j t = refl
terminal_kept (reports_sent (some []) at) j t = refl
terminal_kept (reports_sent (some (c ∷ cs)) at) j t = ground arith
terminal_kept (fails at error permanent draw) j t = ground arith
terminal_kept (recovers now stalled_after draw) j t = ground arith

-- A job that is sent or dead is never changed again, by any sequence of calls.
pub run_terminal : (j : Job) (cs : List Call) → is_terminal j.state ≡ true → run j cs ≡ j
unfolding run
run_terminal j [] t = refl
run_terminal j (c ∷ cs) t = rw (terminal_kept c j t) (run_terminal j cs t)

-- The email that a job stands for.
pub record SameEmail (j k : Job) : Type 0 where
  pub same_id : k.job_id ≡ j.job_id
  pub same_key : k.idempotency_key ≡ j.idempotency_key
  pub same_purpose : k.purpose ≡ j.purpose
  pub same_recipients : k.recipients ≡ j.recipients
  pub same_headers : k.headers ≡ j.headers
  pub same_cap : k.max_attempts ≡ j.max_attempts
  pub same_invitation : k.invitation ≡ j.invitation

SameEmail-refl : (j : Job) → SameEmail j j
SameEmail-refl j = ground arith

kept-SameEmail : (c : Call) (j : Job) → SameEmail j (kept j (call c j))
unfolding call begin_send mark_sent mark_failed recover_stalled_send
kept-SameEmail (begins now) j = ground arith
kept-SameEmail (reports_sent none at) j = ground arith
kept-SameEmail (reports_sent (some []) at) j = ground arith
kept-SameEmail (reports_sent (some (c ∷ cs)) at) j = ground arith
kept-SameEmail (fails at error permanent draw) j = ground arith
kept-SameEmail (recovers now stalled_after draw) j = ground arith

-- Attempts never make a new email: through any sequence of calls a job keeps its id, its idempotency
-- key, its purpose, its recipients, its headers and its cap on attempts.
pub run-SameEmail : (j : Job) (cs : List Call) → SameEmail j (run j cs)
unfolding run
run-SameEmail j [] = SameEmail-refl j
run-SameEmail j (c ∷ cs) = ground (arith, kept-SameEmail c j, run-SameEmail (kept j (call c j)) cs)
