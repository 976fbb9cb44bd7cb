-- ===== src/Domain/Workflow/Preserved.antt =====
-- Every call keeps the invariant of the workflow.
use yente.Prelude.{
  Text, ℕ, ◌+◌, ◌≤◌, ◌≡◌, refl, ◌⊎◌, inl, inr, true, false, Option, some, List, arith, lookup,
  insert, length, ok, Bool-cases, subst, sym, ◌∙◌, ◌≢◌,
}
use yente.Domain.Workflow.{
  Workflow, Preview, Delivery, Decision, approve, pass, correct, stop, delete, State,
  previews_queued, veto_window, ready_to_introduce, introduction_queued, veto_window_cleared,
  all_approve, propose_match, Input, queue_previews, append_history, is_before, mark_preview_sent,
  record_preview_decision, accepts_delivery, accepts_decision, advance_veto_deadline,
  queue_introduction, mark_introduced, settle, state_after, supported_decision, preview_decision,
}
use yente.Domain.Workflow.Previews.{
  All, All-lookup, All-insert, All-map, Any-insert, length-insert, all_approve-All, IsOutBy,
  deliveries-All,
}
use yente.Domain.Workflow.Runs.{
  Call, call, queues_previews, delivers_preview, decides, advances, queues_introduction, introduces,
  Reached, proposal, next,
}
use yente.Domain.Workflow.Cases.{
  advance_cases, queue_introduction_cases, mark_introduced_cases, delivered,
  mark_preview_sent_cases, open_veto_window_cases, record_preview_decision_cases,
}
use yente.Domain.Workflow.Invariant.{
  IsValid, Stage, Disclosed, IsOnTime, IsOpen, IsUndecided, Has, IsDisclosed, IsAuthorised,
  Occurs-append_self, Occurs-append_left, Stage-at, IsAuthorised-append,
}

propose_match-IsValid : (i : Input) {w : Workflow} → propose_match i ≡ ok w → IsValid w
unfolding propose_match
propose_match-IsValid i {w} e = ground arith

queue_previews-IsValid :
    (w : Workflow) (at : ℕ) {v : Workflow} → IsValid w → queue_previews w at ≡ ok v → IsValid v
unfolding queue_previews
queue_previews-IsValid w at {v} h k = ground arith

is_before-le : (now : ℕ) (o : Option ℕ) {d : ℕ} → is_before now o ≡ false → o ≡ some d → d ≤ now
is_before-le now o h e = ground arith

advance-IsValid :
    (w : Workflow) (now : ℕ) {v : Workflow}
    → IsValid w
    → advance_veto_deadline w now ≡ ok v
    → IsValid v
advance-IsValid w now {v} h k = elim (advance_cases w now k) [
  | inl e ↦ subst IsValid (sym e) h
  | inr (s, late, e) ↦
      let d = Stage-at h veto_window s in
      subst IsValid (sym e) (record {
        size = h.size;
        stage = (
          d,
          inr (
            d.deadline,
            now,
            d.has_deadline,
            is_before-le now _ late d.has_deadline,
            Occurs-append_self veto_window_cleared now w.history,
          ),
        );
      })
]

queue_introduction-IsValid :
    (w : Workflow) (at : ℕ) {v : Workflow} → IsValid w → queue_introduction w at ≡ ok v → IsValid v
queue_introduction-IsValid w at {v} h k = elim (queue_introduction_cases w at k) [
  | inl e ↦ subst IsValid (sym e) h
  | inr (s, e) ↦
      let (d, a) = Stage-at h ready_to_introduce s in
      subst IsValid (sym e) (record { size = h.size; stage = (d, IsAuthorised-append _ _ _ at a) })
]

mark_introduced-IsValid :
    (w : Workflow) (id : Option Text) (at : ℕ) {v : Workflow}
    → IsValid w
    → mark_introduced w id at ≡ ok v
    → IsValid v
mark_introduced-IsValid w id at {v} h k = elim (mark_introduced_cases w id at k) [
  | inl (e, s) ↦ subst IsValid (sym e) h
  | inr (t, s, i, e) ↦
      let (d, a) = Stage-at h introduction_queued s in
      subst IsValid (sym e) (record { size = h.size; stage = (d, IsAuthorised-append _ _ _ at a) })
]

State-cases : (s : State) → accepts_delivery s ≡ true → (s ≡ previews_queued) ⊎ (s ≡ veto_window)
State-cases s h = ground arith

queued_of_waiting :
    (w : Workflow) (member : Text) (p : Preview)
    → IsValid w
    → lookup member w.previews ≡ some p
    → p.delivery ≡ Delivery.pending
    → accepts_delivery w.state ≡ true
    → w.state ≡ previews_queued
queued_of_waiting w member p h e waits a = elim (State-cases w.state a) [
  | inl q ↦ q
  | inr o ↦
      let d = Stage-at h veto_window o in
      absurd (
        ground (
          arith,
          All-lookup (IsOnTime w.veto_window_ms d.deadline) member w.previews {p = p} d.on_time e,
        ))
]

delivered-IsUndecided :
    (w : Workflow) (member : Text) (p : Preview) (id : Text) (at : ℕ)
    → All IsUndecided w.previews
    → lookup member w.previews ≡ some p
    → All IsUndecided (delivered w member p id at).previews
delivered-IsUndecided w member p id at u e =
    All-insert IsUndecided member _ w.previews (All-lookup IsUndecided member w.previews u e) u

mark_preview_sent-IsValid :
    (w : Workflow) (member : Text) (id : Option Text) (at : ℕ) {v : Workflow}
    → IsValid w
    → mark_preview_sent w member id at ≡ ok v
    → IsValid v
mark_preview_sent-IsValid w member id at {v} h k = elim (mark_preview_sent_cases w member id at k) [
  | inl e ↦ subst IsValid (sym e) h
  | inr (p, t, e, waits, a, i, opens) ↦
      let q = queued_of_waiting w member p h e waits a in
      let u = delivered-IsUndecided w member p t at (Stage-at h previews_queued q) e in
      let size = length-insert member _ w.previews e ∙ h.size in
      elim (open_veto_window_cases (delivered w member p t at) at opens) [
        | inl f ↦ subst IsValid (sym f) (record {
          size = size;
          stage = subst (λ s. Stage s (delivered w member p t at)) (sym q) u;
        })
        | inr (l, two, late, f) ↦ subst IsValid (sym f) (record {
          size = size;
          stage = record {
            deadline = l + w.veto_window_ms;
            has_deadline = refl;
            on_time =
                All-map (IsOutBy l) _ (λ r o. (o.0, (o.1.0, o.1.1, omega arith))) _
                  (deliveries-All _ (two ∙ sym size) late);
            open_decisions = All-map IsUndecided IsOpen (λ r o. inl o) _ u;
          };
        })
      ]
]

deciding_cases :
    (s : State) → accepts_decision s ≡ true → (s ≡ veto_window) ⊎ (s ≡ ready_to_introduce)
deciding_cases s h = ground arith

-- The two states in which a decision is taken.
decision_stage :
    (w : Workflow)
    → IsValid w
    → accepts_decision w.state ≡ true
    → Disclosed w
      × ((w.state ≡ veto_window)
          ⊎ ((w.state ≡ ready_to_introduce) × IsAuthorised w.deadline_at w.previews w.history))
decision_stage w h a = elim (deciding_cases w.state a) [
  | inl s ↦ (Stage-at h veto_window s, inl s)
  | inr s ↦ let (d, y) = Stage-at h ready_to_introduce s in (d, inr (s, y))
]

abbrev with_decision : Workflow → Text → Preview → Decision → ℕ → List (Text × Preview)
with_decision w member p d at =
    insert member (record p { decision = d; decided_at = some at }) w.previews

-- The workflow in which an objection, or the first approval, is noted.
abbrev noted : Workflow → Text → Preview → Decision → ℕ → Workflow
noted w member p d at = record w {
  previews = with_decision w member p d at;
  state = state_after d w.state;
  history = append_history w.history (preview_decision member d) at;
}

module _ (w : Workflow) (member : Text) (p : Preview) (at : ℕ) where
  module _ (h : IsValid w) (e : lookup member w.previews ≡ some p) where
    noted-size : (d : Decision) → length (with_decision w member p d at) ≡ 2
    noted-size d = length-insert member _ w.previews e ∙ h.size

    noted-Disclosed :
        (d : Decision)
        → All IsOpen (with_decision w member p d at)
        → Disclosed w
        → IsDisclosed w.veto_window_ms w.deadline_at (with_decision w member p d at)
    noted-Disclosed d open_decisions x = record {
      deadline = x.deadline;
      has_deadline = x.has_deadline;
      on_time =
          All-insert _ member _ w.previews
            (All-lookup (IsOnTime w.veto_window_ms x.deadline) member w.previews {p = p} x.on_time
              e)
            x.on_time;
      open_decisions = open_decisions;
    }

    approval-IsOpen : Disclosed w → All IsOpen (with_decision w member p approve at)
    approval-IsOpen x = All-insert IsOpen member _ w.previews (inr refl) x.open_decisions

    approval-IsAuthorised :
        (d : Decision)
        → IsAuthorised w.deadline_at w.previews w.history
        → IsAuthorised w.deadline_at
            (with_decision w member p approve at)
            (append_history w.history (preview_decision member d) at)
    approval-IsAuthorised d (inl all) = inl (All-insert (Has approve) member _ w.previews refl all)
    approval-IsAuthorised d (inr (l, t, has, late, o)) =
        inr (l, t, has, late, Occurs-append_left _ t w.history _ o)

    approval-Stage : accepts_decision w.state ≡ true → Stage w.state (noted w member p approve at)
    approval-Stage a =
        let (x, s) = decision_stage w h a in
        let y = noted-Disclosed approve (approval-IsOpen x) x in
        elim s [
          | inl v ↦ subst (λ s. Stage s (noted w member p approve at)) (sym v) y
          | inr (r, z) ↦
              subst (λ s. Stage s (noted w member p approve at)) (sym r)
                (y, approval-IsAuthorised approve z)
        ]

    noted-Stage :
        (d : Decision)
        → d ≢ Decision.pending
        → accepts_decision w.state ≡ true
        → Stage (state_after d w.state) (noted w member p d at)
    noted-Stage Decision.pending n a = absurd (n refl)
    noted-Stage approve n a = approval-Stage a
    noted-Stage pass n a = Any-insert (Has pass) member _ w.previews refl
    noted-Stage correct n a = Any-insert (Has correct) member _ w.previews refl
    noted-Stage stop n a = Any-insert (Has stop) member _ w.previews refl
    noted-Stage delete n a = Any-insert (Has delete) member _ w.previews refl

    settle-IsValid :
        (d : Decision)
        → d ≢ Decision.pending
        → accepts_decision w.state ≡ true
        → IsValid (settle w member p d at)
    unfolding settle
    settle-IsValid d n a = elim (Bool-cases (all_approve (with_decision w member p d at))) [
      | inl all ↦
          let y = all_approve-All _ all in
          rw all (record {
            size = noted-size d;
            stage = (
              noted-Disclosed d (All-map (Has approve) IsOpen (λ r o. inr o) _ y)
                  (decision_stage w h a).0,
              inl y,
            );
          })
      | inr some_not ↦ rw some_not (record { size = noted-size d; stage = noted-Stage d n a })
    ]

supported-ne-pending :
    (text : Text) (d : Decision) → supported_decision text ≡ ok d → d ≢ Decision.pending
unfolding supported_decision lookup
supported-ne-pending text d s e = ground arith

record_preview_decision-IsValid :
    (w : Workflow) (member text : Text) (at : ℕ) {v : Workflow}
    → IsValid w
    → record_preview_decision w member text at ≡ ok v
    → IsValid v
record_preview_decision-IsValid w member text at {v} h k =
    elim (record_preview_decision_cases w member text at k) [
      | inl e ↦ subst IsValid (sym e) h
      | inr (p, d, e, out, r, a, s, f) ↦
          subst IsValid (sym f)
            (settle-IsValid w member p at h e d (supported-ne-pending text d s) a)
    ]

-- Every call that does not throw keeps the invariant.
pub call-IsValid :
    (c : Call) (w : Workflow) {v : Workflow} → IsValid w → call c w ≡ ok v → IsValid v
unfolding call
call-IsValid (queues_previews at) w h k = queue_previews-IsValid w at h k
call-IsValid (delivers_preview member id at) w h k = mark_preview_sent-IsValid w member id at h k
call-IsValid (decides member text at) w h k = record_preview_decision-IsValid w member text at h k
call-IsValid (advances now) w h k = advance-IsValid w now h k
call-IsValid (queues_introduction at) w h k = queue_introduction-IsValid w at h k
call-IsValid (introduces id at) w h k = mark_introduced-IsValid w id at h k

pub Reached-IsValid : {i : Input} {w : Workflow} → Reached i w → IsValid w
Reached-IsValid {i} (proposal e) = propose_match-IsValid i e
Reached-IsValid (next {v} c r e) = call-IsValid c v (Reached-IsValid r) e
