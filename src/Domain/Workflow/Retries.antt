-- ===== src/Domain/Workflow/Retries.antt =====
-- A worker that repeats a call after a crash.
use yente.Prelude.{
  Text, ℕ, ◌≡◌, refl, ◌⊎◌, inl, inr, Bool, true, false, Option, none, some, List, [], ◌∷◌, ok,
  arith, lookup, insert, lookup-insert, same_refl, subst, sym, ap, ◌∙◌,
}
use yente.Domain.Workflow.{
  Workflow, Preview, sent, Decision, State, is_terminal, introduced, veto_window, previews_queued,
  settle, queue_previews, mark_preview_sent, record_preview_decision, advance_veto_deadline,
  queue_introduction, mark_introduced, deliver, decide, accepts_delivery, open_veto_window,
  require_member, supported_decision, accepts_decision,
}
use yente.Domain.Workflow.Runs.{
  Call, call, queues_previews, delivers_preview, decides, advances, queues_introduction, introduces,
}
use yente.Domain.Workflow.Cases.{
  mark_introduced_cases, sends, delivered, opened, mark_preview_sent_cases, open_veto_window_cases,
  record_preview_decision_cases,
}

-- Ended without an introduction.
abbrev pub is_blocked : State → Bool
is_blocked introduced = false
is_blocked s = is_terminal s

deliver_again :
    (v : Workflow) (member : Text) (p : Preview) (c : ℕ) (t : Text) (at : ℕ)
    → lookup member v.previews ≡ some p
    → p.delivery ≡ sent
    → p.message_id ≡ some (c ∷ t)
    → (v.state ≡ previews_queued) ⊎ (v.state ≡ veto_window)
    → mark_preview_sent v member (some (c ∷ t)) at ≡ ok v
unfolding mark_preview_sent require_member deliver
deliver_again v member p c t at e s m st = ground (arith, same_refl (c ∷ t))

decide_again :
    (v : Workflow) (member text : Text) (p : Preview) (d : Decision) (at : ℕ)
    → lookup member v.previews ≡ some p
    → p.delivery ≡ sent
    → p.decision ≡ d
    → supported_decision text ≡ ok d
    → accepts_decision v.state ≡ true
    → record_preview_decision v member text at ≡ ok v
unfolding record_preview_decision require_member decide
decide_again v member text p d at e s m x st = ground arith

lookup-insert_self :
    (k : Text) (p : Preview) (m : List (Text × Preview)) → lookup k (insert k p m) ≡ some p
lookup-insert_self k p m = rw (lookup-insert, same_refl)

waiting_cases :
    (s r : State)
    → accepts_delivery r ≡ true
    → (s ≡ r) ⊎ (s ≡ veto_window)
    → (s ≡ previews_queued) ⊎ (s ≡ veto_window)
waiting_cases s r a h = ground arith

delivered_again :
    (w v : Workflow) (member : Text) (p : Preview) (c : ℕ) (t : Text) (at : ℕ)
    → accepts_delivery w.state ≡ true
    → open_veto_window (delivered w member p (c ∷ t) at) at ≡ ok v
    → mark_preview_sent v member (some (c ∷ t)) at ≡ ok v
delivered_again w v member p c t at a o =
    let x = delivered w member p (c ∷ t) at in
    let again : (u : Workflow)
        → u.previews ≡ x.previews
        → (u.state ≡ w.state) ⊎ (u.state ≡ veto_window)
        → mark_preview_sent u member (some (c ∷ t)) at ≡ ok u =
      λ u e st.
        deliver_again u member _ c t at
          (ap (lookup member) e ∙ lookup-insert_self member _ w.previews) refl refl
          (waiting_cases u.state w.state a st) in
    elim (open_veto_window_cases x at o) [
      | inl e ↦
          subst (λ u. mark_preview_sent u member (some (c ∷ t)) at ≡ ok u) (sym e)
            (again x refl (inl refl))
      | inr (l, two, late, e) ↦
          subst (λ u. mark_preview_sent u member (some (c ∷ t)) at ≡ ok u) (sym e)
            (again (opened x _ at) refl (inr refl))
    ]

no_message_id :
    (w v : Workflow) (member : Text) (at : ℕ)
    → (mark_preview_sent w member none at ≡ ok v) ⊎ (mark_preview_sent w member (some []) at ≡ ok v)
    → ⊥
unfolding mark_preview_sent require_member
no_message_id w v member at k = ground arith

text_of : (u : Text) (c : ℕ) (t : Text) → ◌≡◌ {A = Option Text} (some (c ∷ t)) (some u) → u ≡ c ∷ t
text_of u c t i = cc

delivery_again :
    (w v : Workflow) (member : Text) (id : Option Text) (at : ℕ)
    → mark_preview_sent w member id at ≡ ok v
    → mark_preview_sent v member id at ≡ ok v
delivery_again w v member none at k = absurd (no_message_id w v member at (inl k))
delivery_again w v member (some []) at k = absurd (no_message_id w v member at (inr k))
delivery_again w v member (some (c ∷ t)) at k =
    elim (mark_preview_sent_cases w member (some (c ∷ t)) at k) [
      | inl e ↦ subst (λ u. mark_preview_sent u member (some (c ∷ t)) at ≡ ok v) (sym e) k
      | inr (p, u, e, waits, a, i, o) ↦
          delivered_again w v member p c t at a (
            subst (λ x. open_veto_window (delivered w member p x at) at ≡ ok v) (text_of u c t i) o)
    ]

settled_state :
    (w : Workflow) (member : Text) (p : Preview) (d : Decision) (at : ℕ)
    → accepts_decision w.state ≡ true
    → is_blocked (settle w member p d at).state ≡ false
    → accepts_decision (settle w member p d at).state ≡ true
unfolding settle
settled_state w member p d at a b = ground arith

settled_previews :
    (w : Workflow) (member : Text) (p : Preview) (d : Decision) (at : ℕ)
    → (settle w member p d at).previews
      ≡ insert member (record p { decision = d; decided_at = some at }) w.previews
unfolding settle
settled_previews w member p d at = ground arith

decision_again :
    (w v : Workflow) (member text : Text) (at : ℕ)
    → record_preview_decision w member text at ≡ ok v
    → is_blocked v.state ≡ false
    → record_preview_decision v member text at ≡ ok v
decision_again w v member text at k b = elim (record_preview_decision_cases w member text at k) [
  | inl e ↦ subst (λ u. record_preview_decision u member text at ≡ ok v) (sym e) k
  | inr (p, d, e, out, r, a, s, f) ↦
      subst (λ u. record_preview_decision u member text at ≡ ok u) (sym f)
        (decide_again (settle w member p d at) member text
          (record p { decision = d; decided_at = some at }) d at
          (ap (lookup member) (settled_previews w member p d at)
            ∙ lookup-insert_self member _ w.previews)
          out refl s
          (settled_state w member p d at a (subst (λ u. is_blocked u.state ≡ false) f b)))
]

introduction_again :
    (w v : Workflow) (id : Option Text) (at : ℕ)
    → mark_introduced w id at ≡ ok v
    → mark_introduced v id at ≡ ok v
introduction_again w v id at k = elim (mark_introduced_cases w id at k) [
  | inl (e, s) ↦ subst (λ u. mark_introduced u id at ≡ ok v) (sym e) k
  | inr (t, s, i, e) ↦
      subst (λ u. mark_introduced u id at ≡ ok u) (sym e)
        (subst (λ x. mark_introduced (sends w t at) x at ≡ ok (sends w t at)) (sym i)
          (reported w t at))
]
  where
    reported :
        (w : Workflow) (t : Text) (at : ℕ)
        → mark_introduced (sends w t at) (some t) at ≡ ok (sends w t at)
    reported w t at = unfold mark_introduced in rw same_refl

simple_again :
    (w v : Workflow) (at : ℕ)
    → ((queue_previews w at ≡ ok v) → queue_previews v at ≡ ok v)
      × ((advance_veto_deadline w at ≡ ok v) → advance_veto_deadline v at ≡ ok v)
      × ((queue_introduction w at ≡ ok v) → queue_introduction v at ≡ ok v)
unfolding queue_previews advance_veto_deadline queue_introduction
simple_again w v at = ((λ k. ground arith), (λ k. ground arith), (λ k. ground arith))

-- A call that is made again after it succeeded succeeds once more and changes nothing, unless it was
-- the decision that ended the match.
pub call_again :
    (c : Call) (w v : Workflow) → call c w ≡ ok v → is_blocked v.state ≡ false → call c v ≡ ok v
unfolding call
call_again (queues_previews at) w v k b = (simple_again w v at).0 k
call_again (delivers_preview member id at) w v k b = delivery_again w v member id at k
call_again (decides member text at) w v k b = decision_again w v member text at k b
call_again (advances now) w v k b = (simple_again w v now).1 k
call_again (queues_introduction at) w v k b = (simple_again w v at).2 k
call_again (introduces id at) w v k b = introduction_again w v id at k
