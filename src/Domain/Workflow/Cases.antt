-- ===== src/Domain/Workflow/Cases.antt =====
-- What each call of the workflow returns when it does not throw.
use yente.Prelude.{
  Text, ℕ, ◌+◌, ◌≡◌, refl, ◌⊎◌, inl, inr, true, false, Option, none, some, [], ◌∷◌, arith, lookup,
  insert, length, Option-cases, ok, err, Result-cases, Bool-cases, ◌==◌,
}
use yente.Domain.Workflow.{
  Workflow, Preview, Delivery, sent, Decision, veto_window, ready_to_introduce, introduction_queued,
  introduced, Error, veto_window_cleared, deliveries, latest, preview_sent, append_history,
  is_before, introduction_was_queued, was_introduced, open_veto_window, deliver, mark_preview_sent,
  decide, record_preview_decision, accepts_delivery, accepts_decision, advance_veto_deadline,
  queue_introduction, mark_introduced, settle, require_member, replaces, supported_decision,
  veto_window_opened,
}

pub advance_cases :
    (w : Workflow) (now : ℕ) {v : Workflow}
    → advance_veto_deadline w now ≡ ok v
    → (v ≡ w)
      ⊎ ((w.state ≡ veto_window)
          × (is_before now w.deadline_at ≡ false)
          × (v ≡ record w {
            state = ready_to_introduce;
            history = append_history w.history veto_window_cleared now;
          }))
unfolding advance_veto_deadline
advance_cases w now k = ground arith

pub queue_introduction_cases :
    (w : Workflow) (at : ℕ) {v : Workflow}
    → queue_introduction w at ≡ ok v
    → (v ≡ w)
      ⊎ ((w.state ≡ ready_to_introduce)
          × (v ≡ record w {
            state = introduction_queued;
            history =
                append_history w.history
                  (introduction_was_queued w.introduction.idempotency_key)
                  at;
          }))
unfolding queue_introduction
queue_introduction_cases w at k = ground arith

-- The workflow once its introduction is out.
abbrev pub sends : Workflow → Text → ℕ → Workflow
sends w t at = record w {
  state = introduced;
  introduction = record w.introduction { message_id = some t; sent_at = some at };
  history = append_history w.history (was_introduced t) at;
}

mark_introduced-some :
    (w : Workflow) (c : ℕ) (t : Text) (at : ℕ) {v : Workflow}
    → mark_introduced w (some (c ∷ t)) at ≡ ok v
    → ((v ≡ w) × (w.state ≡ introduced))
      ⊎ ((w.state ≡ introduction_queued) × (v ≡ sends w (c ∷ t) at))
unfolding mark_introduced
mark_introduced-some w c t at k = ground arith

pub mark_introduced_cases :
    (w : Workflow) (id : Option Text) (at : ℕ) {v : Workflow}
    → mark_introduced w id at ≡ ok v
    → ((v ≡ w) × (w.state ≡ introduced))
      ⊎ ((t : Text) × (w.state ≡ introduction_queued) × (id ≡ some t) × (v ≡ sends w t at))
unfolding mark_introduced
mark_introduced_cases w none at k = ground arith
mark_introduced_cases w (some []) at k = ground arith
mark_introduced_cases w (some (c ∷ t)) at k = elim (mark_introduced-some w c t at k) [
  | inl kept ↦ inl kept
  | inr (s, e) ↦ inr (c ∷ t, s, refl, e)
]

-- The workflow with one more preview out.
abbrev pub delivered : Workflow → Text → Preview → Text → ℕ → Workflow
delivered w member existing id at = record w {
  previews =
      insert member
        (record existing { delivery = sent; message_id = some id; delivered_at = some at })
        w.previews;
  history = append_history w.history (preview_sent member id) at;
}

-- The workflow with its veto window open until `deadline`.
abbrev pub opened : Workflow → ℕ → ℕ → Workflow
opened next deadline at = record next {
  deadline_at = some deadline;
  state = veto_window;
  history = append_history next.history (veto_window_opened deadline) at;
}

pub open_veto_window_cases :
    (next : Workflow) (at : ℕ) {v : Workflow}
    → open_veto_window next at ≡ ok v
    → (v ≡ next)
      ⊎ ((l : ℕ) × (length (deliveries next.previews) ≡ 2)
          × (latest (deliveries next.previews) ≡ some l)
          × (v ≡ opened next (l + next.veto_window_ms) at))
unfolding open_veto_window
open_veto_window_cases next at {v} k = elim (Option-cases (latest (deliveries next.previews))) [
  | inl e ↦ inl (ground arith)
  | inr (l, e) ↦ elim (Bool-cases (length (deliveries next.previews) == 2)) [
    | inl two ↦ inr (l, ground arith, e, ground arith)
    | inr few ↦ inl (ground arith)
  ]
]

deliver_cases :
    (w : Workflow) (member : Text) (existing : Preview) (id : Text) (at : ℕ) {v : Workflow}
    → deliver w member existing id at ≡ ok v
    → (v ≡ w)
      ⊎ ((existing.delivery ≡ Delivery.pending)
          × (open_veto_window (delivered w member existing id at) at ≡ ok v))
unfolding deliver
deliver_cases w member existing id at k = ground arith

delivery_of_some :
    (w : Workflow) (member : Text) (c : ℕ) (t : Text) (at : ℕ) (existing : Preview) {v : Workflow}
    → lookup member w.previews ≡ some existing
    → mark_preview_sent w member (some (c ∷ t)) at ≡ ok v
    → (accepts_delivery w.state ≡ true) × (deliver w member existing (c ∷ t) at ≡ ok v)
unfolding mark_preview_sent require_member
delivery_of_some w member c t at existing e k = ground arith

delivery_of_missing :
    (w : Workflow) (member : Text) (id : Option Text) (at : ℕ) {v : Workflow}
    → lookup member w.previews ≡ none
    → mark_preview_sent w member id at ≡ ok v
    → ⊥
unfolding mark_preview_sent require_member
delivery_of_missing w member id at e k = ground arith

pub mark_preview_sent_cases :
    (w : Workflow) (member : Text) (id : Option Text) (at : ℕ) {v : Workflow}
    → mark_preview_sent w member id at ≡ ok v
    → (v ≡ w)
      ⊎ ((existing : Preview) × (t : Text) × (lookup member w.previews ≡ some existing)
          × (existing.delivery ≡ Delivery.pending)
          × (accepts_delivery w.state ≡ true)
          × (id ≡ some t)
          × (open_veto_window (delivered w member existing t at) at ≡ ok v))
unfolding mark_preview_sent require_member
mark_preview_sent_cases w member none at k = ground arith
mark_preview_sent_cases w member (some []) at k = ground arith
mark_preview_sent_cases w member (some (c ∷ t)) at {v} k =
    elim (Option-cases (lookup member w.previews)) [
      | inl e ↦ absurd (delivery_of_missing w member (some (c ∷ t)) at e k)
      | inr (existing, e) ↦
          let (accepts, d) = delivery_of_some w member c t at existing {v = v} e k in
          elim (deliver_cases w member existing (c ∷ t) at d) [
            | inl kept ↦ inl kept
            | inr (waits, opens) ↦ inr (existing, c ∷ t, e, waits, accepts, refl, opens)
          ]
    ]

decide_cases :
    (w : Workflow) (member : Text) (p : Preview) (d : Decision) (at : ℕ) {v : Workflow}
    → decide w member p d at ≡ ok v
    → (v ≡ w) ⊎ ((replaces p.decision ≡ true) × (v ≡ settle w member p d at))
unfolding decide
decide_cases w member p d at k = ground arith

decision_of :
    (w : Workflow) (member text : Text) (at : ℕ) (p : Preview) (d : Decision) {v : Workflow}
    → lookup member w.previews ≡ some p
    → supported_decision text ≡ ok d
    → record_preview_decision w member text at ≡ ok v
    → (accepts_decision w.state ≡ true) × (p.delivery ≡ sent) × (decide w member p d at ≡ ok v)
unfolding record_preview_decision require_member
decision_of w member text at p d e s k = ground arith

decision_of_missing :
    (w : Workflow) (member text : Text) (at : ℕ) {v : Workflow}
    → lookup member w.previews ≡ none
    → record_preview_decision w member text at ≡ ok v
    → ⊥
unfolding record_preview_decision require_member
decision_of_missing w member text at e k = ground arith

unsupported_cases :
    (w : Workflow) (member text : Text) (at : ℕ) (x : Error) {v : Workflow}
    → supported_decision text ≡ err x
    → record_preview_decision w member text at ≡ ok v
    → ⊥
unfolding record_preview_decision
unsupported_cases w member text at x e k = ground arith

pub record_preview_decision_cases :
    (w : Workflow) (member text : Text) (at : ℕ) {v : Workflow}
    → record_preview_decision w member text at ≡ ok v
    → (v ≡ w)
      ⊎ ((p : Preview) × (d : Decision) × (lookup member w.previews ≡ some p)
          × (p.delivery ≡ sent)
          × (replaces p.decision ≡ true)
          × (accepts_decision w.state ≡ true)
          × (supported_decision text ≡ ok d)
          × (v ≡ settle w member p d at))
record_preview_decision_cases w member text at {v} k =
    elim (Option-cases (lookup member w.previews)) [
      | inl e ↦ absurd (decision_of_missing w member text at e k)
      | inr (p, e) ↦ elim (Result-cases (supported_decision text)) [
        | inr (x, bad) ↦ absurd (unsupported_cases w member text at x bad k)
        | inl (d, s) ↦
            let (accepts, out, now) = decision_of w member text at p d {v = v} e s k in
            elim (decide_cases w member p d at now) [
              | inl kept ↦ inl kept
              | inr (r, f) ↦ inr (p, d, e, out, r, accepts, s, f)
            ]
      ]
    ]
