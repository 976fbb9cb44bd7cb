-- ===== src/Domain/Workflow/Safety.antt =====
-- What the match workflow guarantees to the two people in it.
use yente.Prelude.{Text, ◌≡◌, refl, inl, inr, Bool, true, false, List, [], ◌∷◌, arith, Bool-cases}
use yente.Domain.Workflow.{
  Workflow, Preview, State, Input, is_terminal, replaces, introduced, ready_to_introduce,
  introduction_queued, veto_window, proposed, previews_queued, queue_previews, mark_preview_sent,
  record_preview_decision, advance_veto_deadline, queue_introduction, mark_introduced,
}
use yente.Domain.Workflow.Previews.{All, Any}
use yente.Domain.Workflow.Runs.{
  Call, call, queues_previews, delivers_preview, decides, advances, queues_introduction, introduces,
  Reached, kept, run,
}
use yente.Domain.Workflow.Invariant.{IsValid, IsOpen, IsUndecided, Authorised, Stage}
use yente.Domain.Workflow.Preserved.{Reached-IsValid}

-- The states in which the introduction may go out, or has gone out.
abbrev pub is_released : State → Bool
is_released ready_to_introduce = true
is_released introduction_queued = true
is_released introduced = true
is_released _ = false

released_stage : (w : Workflow) → IsValid w → is_released w.state ≡ true → Authorised w
released_stage w h r = ground arith

-- However a match was reached from its proposal, it is ready, queued or introduced only if both
-- private previews were sent, each a full veto window before the deadline, nobody has objected, and
-- either both sides approved or the window was cleared at the deadline or later.
pub released-Authorised :
    {i : Input} (w : Workflow) → Reached i w → is_released w.state ≡ true → Authorised w
released-Authorised w r s = released_stage w (Reached-IsValid r) s

-- A decision that blocks the match.
abbrev pub IsObjection : Preview → Type 0
IsObjection p = replaces p.decision ≡ false

open-not-Any : (m : List (Text × Preview)) → All IsOpen m → Any IsObjection m → ⊥
open-not-Any [] a o = o
open-not-Any ((id, p) ∷ m) a (inl o) = ground arith
open-not-Any ((id, p) ∷ m) a (inr o) = open-not-Any m a.1 o

undecided-IsOpen : (m : List (Text × Preview)) → All IsUndecided m → All IsOpen m
undecided-IsOpen [] a = tt
undecided-IsOpen ((id, p) ∷ m) a = (inl a.0, undecided-IsOpen m a.1)

IsOpen-Stage :
    (s : State) (w : Workflow) → Stage s w → is_terminal s ≡ false → All IsOpen w.previews
IsOpen-Stage proposed w h t = undecided-IsOpen w.previews h
IsOpen-Stage previews_queued w h t = undecided-IsOpen w.previews h
IsOpen-Stage veto_window w h t = h.open_decisions
IsOpen-Stage ready_to_introduce w h t = h.0.open_decisions
IsOpen-Stage introduction_queued w h t = h.0.open_decisions
IsOpen-Stage _ w h t = cc

-- A terminal match: every call throws, or is the repeated report of the introduction.
terminal_kept : (c : Call) (w : Workflow) → is_terminal w.state ≡ true → kept w (call c w) ≡ w
unfolding call queue_previews mark_preview_sent record_preview_decision advance_veto_deadline
    queue_introduction mark_introduced
terminal_kept (queues_previews at) w t = ground arith
terminal_kept (delivers_preview member id at) w t = ground arith
terminal_kept (decides member text at) w t = ground arith
terminal_kept (advances now) w t = ground arith
terminal_kept (queues_introduction at) w t = ground arith
terminal_kept (introduces id at) w t = ground arith

-- No sequence of calls changes a terminal match.
pub run_terminal : (w : Workflow) (cs : List Call) → is_terminal w.state ≡ true → run w cs ≡ w
unfolding run
run_terminal w [] t = refl
run_terminal w (c ∷ cs) t = rw (terminal_kept c w t) (run_terminal w cs t)

-- Once a side has passed, corrected, stopped or asked for deletion, the match is not released, and
-- no sequence of calls changes anything about it.
pub objection_final :
    {i : Input} (w : Workflow) (cs : List Call)
    → Reached i w
    → Any IsObjection w.previews
    → (is_released w.state ≡ false) × (run w cs ≡ w)
objection_final w cs r o =
    let v = Reached-IsValid r in
    elim (Bool-cases (is_terminal w.state)) [
      | inr live ↦ absurd (open-not-Any w.previews (IsOpen-Stage w.state w v.stage live) o)
      | inl t ↦ elim (Bool-cases (is_released w.state)) [
        | inl out ↦ absurd (open-not-Any w.previews (released_stage w v out).0.open_decisions o)
        | inr held ↦ (held, run_terminal w cs t)
      ]
    ]
