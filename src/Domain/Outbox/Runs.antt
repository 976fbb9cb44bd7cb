-- ===== src/Domain/Outbox/Runs.antt =====
-- The calls of a delivery worker on one job, and the jobs that they reach from an enqueued one.
use yente.Prelude.{
  Text, ℕ, ◌≡◌, Bool, Option, List, [], ◌∷◌, Result, ok, err, inl, inr, Result-cases,
}
use yente.Domain.Outbox.{
  Job, Error, Email, Draw, enqueue_email, begin_send, mark_sent, mark_failed, recover_stalled_send,
}

pub data Call : Type 0 where
  begins : ℕ → Call
  reports_sent : Option Text → ℕ → Call
  fails : ℕ → Option Text → Bool → Draw → Call
  recovers : ℕ → ℕ → Draw → Call

unfoldable pub call : Call → Job → Result Error Job
call (begins now) j = begin_send j now
call (reports_sent id at) j = mark_sent j id at
call (fails at error permanent draw) j = mark_failed j at error permanent draw
call (recovers now stalled_after draw) j = recover_stalled_send j now stalled_after draw

pub data Reached (e : Email) : Job → Type 0 where
  queued : {j : Job} → enqueue_email e ≡ ok j → Reached e j
  next : {j k : Job} (c : Call) → Reached e j → call c j ≡ ok k → Reached e k

-- A throw leaves the stored job as it was.
abbrev pub kept : Job → Result Error Job → Job
kept j (ok k) = k
kept j (err e) = j

unfoldable pub run : Job → List Call → Job
run j [] = j
run j (c ∷ cs) = run (kept j (call c j)) cs

kept-Reached : {e : Email} {j : Job} (c : Call) → Reached e j → Reached e (kept j (call c j))
kept-Reached {j = j} c r = elim (Result-cases (call c j)) [
  | inl (k, e) ↦ rw e (next c r e)
  | inr (x, e) ↦ rw e r
]

pub Reached-run : {e : Email} (j : Job) (cs : List Call) → Reached e j → Reached e (run j cs)
unfolding run
Reached-run j [] r = r
Reached-run j (c ∷ cs) r = Reached-run (kept j (call c j)) cs (kept-Reached c r)
