-- ===== src/Domain/Workflow/Runs.antt =====
-- The calls that move a workflow, and the workflows that they reach from a proposal. A call that
-- throws leaves the caller with the workflow that it had.
use yente.Prelude.{Text, ℕ, ◌≡◌, Option, List, [], ◌∷◌, Result, ok, err, inl, inr, Result-cases}
use yente.Domain.Workflow.{
  Workflow, Error, Input, propose_match, queue_previews, mark_preview_sent, record_preview_decision,
  advance_veto_deadline, queue_introduction, mark_introduced,
}

pub data Call : Type 0 where
  queues_previews : ℕ → Call
  delivers_preview : Text → Option Text → ℕ → Call
  decides : Text → Text → ℕ → Call
  advances : ℕ → Call
  queues_introduction : ℕ → Call
  introduces : Option Text → ℕ → Call

unfoldable pub call : Call → Workflow → Result Error Workflow
call (queues_previews at) w = queue_previews w at
call (delivers_preview member id at) w = mark_preview_sent w member id at
call (decides member decision at) w = record_preview_decision w member decision at
call (advances now) w = advance_veto_deadline w now
call (queues_introduction at) w = queue_introduction w at
call (introduces id at) w = mark_introduced w id at

pub data Reached (i : Input) : Workflow → Type 0 where
  proposal : {w : Workflow} → propose_match i ≡ ok w → Reached i w
  next : {v w : Workflow} (c : Call) → Reached i v → call c v ≡ ok w → Reached i w

-- The state after a call, where a throw changes nothing.
abbrev pub kept : Workflow → Result Error Workflow → Workflow
kept w (ok v) = v
kept w (err e) = w

unfoldable pub run : Workflow → List Call → Workflow
run w [] = w
run w (c ∷ cs) = run (kept w (call c w)) cs

kept-Reached : {i : Input} {w : Workflow} (c : Call) → Reached i w → Reached i (kept w (call c w))
kept-Reached {w = w} c r = elim (Result-cases (call c w)) [
  | inl (v, e) ↦ rw e (next c r e)
  | inr (x, e) ↦ rw e r
]

-- The workflows of a run are reached.
pub Reached-run : {i : Input} (w : Workflow) (cs : List Call) → Reached i w → Reached i (run w cs)
unfolding run
Reached-run w [] r = r
Reached-run w (c ∷ cs) r = Reached-run (kept w (call c w)) cs (kept-Reached c r)
