-- ===== src/Runtime/Decisions/Taken.antt =====
-- A member who stops or asks for deletion ends every match that may still be decided.
use yente.Prelude.{
  Text, ℕ, ◌≤◌, ◌≡◌, refl, sym, subst, true, false, some, List, [], ◌∷◌, lookup, insert, same, ok,
  arith, max_date,
}
use yente.Domain.Workflow.{
  Workflow, Preview, State, Decision, Input, sent, veto_window, ready_to_introduce,
  accepts_decision, record_preview_decision, require_member, supported_decision, decide, settle,
  all_approve, is_approve, cancelled_by_stop, cancelled_by_deletion,
}
use yente.Domain.Workflow.Previews.{Any, All-lookup, Any-insert}
use yente.Domain.Workflow.Runs.{Reached, Call, decides, call, next, run}
use yente.Domain.Workflow.Invariant.{IsOpen, IsOnTime, Disclosed, Stage}
use yente.Domain.Workflow.Preserved.{Reached-IsValid}
use yente.Domain.Workflow.Safety.{IsObjection, is_released, objection_final}
use yente.Runtime.Decisions.{Stop, stop, delete, stop_decision}

abbrev pub decision : Stop → Decision
decision stop = Decision.stop
decision delete = Decision.delete

-- An entry that is no approval keeps a match from being cleared by both sides.
not_all_approve :
    (k : Text) (p : Preview) (m : List (Text × Preview))
    → is_approve p.decision ≡ false
    → all_approve (insert k p m) ≡ false
unfolding all_approve insert
not_all_approve k p [] h = ground (arith, h)
not_all_approve k p ((j, q) ∷ m) h = ground (arith, not_all_approve k p m h)

-- In a state in which decisions are taken every preview is out and open.
Stage-Disclosed : (t : State) (w : Workflow) → Stage t w → accepts_decision t ≡ true → Disclosed w
Stage-Disclosed veto_window w h a = h
Stage-Disclosed ready_to_introduce w h a = h.0
Stage-Disclosed _ w h a = absurd (ground arith)

taken :
    (w : Workflow) (address : Text) (p : Preview) (intent : Stop) (now : ℕ)
    → lookup address w.previews ≡ some p
    → accepts_decision w.state ≡ true
    → p.delivery ≡ sent
    → IsOpen p
    → now ≤ max_date
    → record_preview_decision w address (stop_decision intent) now
      ≡ ok (settle w address p (decision intent) now)
unfolding record_preview_decision require_member supported_decision decide lookup same
taken w address p stop now found a out o valid = ground (arith, found)
taken w address p delete now found a out o valid = ground (arith, found)

abbrev pub ended_state : Stop → State
ended_state stop = cancelled_by_stop
ended_state delete = cancelled_by_deletion

-- The match has ended with that word, and nothing that is called changes it or releases it.
pub record IsEnded (intent : Stop) (w : Workflow) : Type 0 where
  pub ended_by : w.state ≡ ended_state intent
  pub held : is_released w.state ≡ false
  pub final : (cs : List Call) → run w cs ≡ w

settled_state :
    (w : Workflow) (address : Text) (p : Preview) (intent : Stop) (now : ℕ)
    → (settle w address p (decision intent) now).state ≡ ended_state intent
unfolding settle
settled_state w address p stop now = ground (
  arith,
  not_all_approve address (record p { decision = Decision.stop; decided_at = some now }) w.previews,
)
settled_state w address p delete now = ground (
  arith,
  not_all_approve address (record p { decision = Decision.delete; decided_at = some now })
      w.previews,
)

settled_previews :
    (w : Workflow) (address : Text) (p : Preview) (intent : Stop) (now : ℕ)
    → (settle w address p (decision intent) now).previews
      ≡ insert address (record p { decision = decision intent; decided_at = some now }) w.previews
unfolding settle
settled_previews w address p intent now = ground arith

settled-IsObjection :
    (w : Workflow) (address : Text) (p : Preview) (intent : Stop) (now : ℕ)
    → Any IsObjection (settle w address p (decision intent) now).previews
settled-IsObjection w address p stop now =
    subst (Any IsObjection) (sym (settled_previews w address p stop now)) (
      Any-insert IsObjection address (record p { decision = Decision.stop; decided_at = some now })
        w.previews refl)
settled-IsObjection w address p delete now =
    subst (Any IsObjection) (sym (settled_previews w address p delete now)) (
      Any-insert IsObjection address
        (record p { decision = Decision.delete; decided_at = some now }) w.previews refl)

-- The word of a member to whom a preview went out is taken, whatever was decided before.
pub IsEnded-match :
    {i : Input} (w : Workflow) (address : Text) (p : Preview) (intent : Stop) (now : ℕ)
    → Reached i w
    → lookup address w.previews ≡ some p
    → accepts_decision w.state ≡ true
    → now ≤ max_date
    → (v : Workflow) × (record_preview_decision w address (stop_decision intent) now ≡ ok v)
      × IsEnded intent v
unfolding call
IsEnded-match w address p intent now r found a valid =
    let d = Stage-Disclosed w.state w (Reached-IsValid r).stage a in
    let on_time =
      All-lookup (IsOnTime w.veto_window_ms d.deadline) address w.previews {p = p} d.on_time
        found in
    let unobjected = All-lookup IsOpen address w.previews {p = p} d.open_decisions found in
    let write = taken w address p intent now found a on_time.0 unobjected valid in
    let v = settle w address p (decision intent) now in
    let o = settled-IsObjection w address p intent now in
    let reached = next (decides address (stop_decision intent) now) r write in
    (
      v,
      write,
      record {
        ended_by = settled_state w address p intent now;
        held = (objection_final v [] reached o).0;
        final = λ cs. (objection_final v cs reached o).1;
      },
    )
