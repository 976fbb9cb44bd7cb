-- ===== src/Domain/Workflow/Continuity.antt =====
-- What no call changes over the life of a match.
use yente.Prelude.{
  Text, ℕ, ◌≡◌, refl, ◌⊎◌, inl, inr, some, List, [], ◌∷◌, ◌++◌, ok, arith, Bool-cases, Result-cases,
  ◌+◌, lookup, insert, subst, sym, ◌∙◌,
}
use mathlib.Core.List.{append-nil, append_assoc}
use yente.Domain.Workflow.{
  append_history, previews_were_queued, preview_decision, both_sides_approved, preview_sent,
  veto_window_opened, Workflow, Preview, Decision, Event, previews_queued, settle, queue_previews,
  open_veto_window, all_approve,
}
use yente.Domain.Workflow.Runs.{
  Call, call, queues_previews, delivers_preview, decides, advances, queues_introduction, introduces,
  kept, run,
}
use yente.Domain.Workflow.Cases.{
  advance_cases, queue_introduction_cases, mark_introduced_cases, delivered, opened,
  mark_preview_sent_cases, open_veto_window_cases, record_preview_decision_cases,
}

-- The keys of the previews, which are the members.
abbrev pub members : List (Text × Preview) → List Text
members [] = []
members ((id, p) ∷ ps) = id ∷ members ps

members-insert :
    (k : Text) (p : Preview) (m : List (Text × Preview)) {q : Preview}
    → lookup k m ≡ some q
    → members (insert k p m) ≡ members m
unfolding lookup insert
members-insert k p [] e = cc
members-insert k p ((j, r) ∷ m) {q} e = ground (arith, members-insert k p m {q = q})

-- What stays the same over the life of a match, and the history, which only grows.
pub record Continues (w v : Workflow) : Type 0 where
  pub same_match : v.match_id ≡ w.match_id
  pub same_key : v.match_idempotency_key ≡ w.match_idempotency_key
  pub same_window : v.veto_window_ms ≡ w.veto_window_ms
  pub same_introduction : v.introduction.idempotency_key ≡ w.introduction.idempotency_key
  pub same_members : members v.previews ≡ members w.previews
  pub added : List (Event × ℕ)
  pub grown : v.history ≡ w.history ++ added

Continues-refl : (w : Workflow) → Continues w w
Continues-refl w = record {
  same_match = refl;
  same_key = refl;
  same_window = refl;
  same_introduction = refl;
  same_members = refl;
  added = [];
  grown = sym (append-nil w.history);
}

Continues-trans : {w v u : Workflow} → Continues w v → Continues v u → Continues w u
Continues-trans {w} a b = record {
  same_match = b.same_match ∙ a.same_match;
  same_key = b.same_key ∙ a.same_key;
  same_window = b.same_window ∙ a.same_window;
  same_introduction = b.same_introduction ∙ a.same_introduction;
  same_members = b.same_members ∙ a.same_members;
  added = a.added ++ b.added;
  grown = b.grown ∙ rw a.grown (append_assoc w.history a.added b.added);
}

queue_previews_cases :
    (w v : Workflow) (at : ℕ)
    → queue_previews w at ≡ ok v
    → (v ≡ w)
      ⊎ (v ≡ record w {
        state = previews_queued;
        history = append_history w.history previews_were_queued at;
      })
unfolding queue_previews
queue_previews_cases w v at k = ground arith

settle-Continues :
    (w : Workflow) (member : Text) (p : Preview) (d : Decision) (at : ℕ)
    → lookup member w.previews ≡ some p
    → Continues w (settle w member p d at)
unfolding settle
settle-Continues w member p d at e =
    elim (Bool-cases
      (all_approve (insert member (record p { decision = d; decided_at = some at }) w.previews))) [
        | inl all ↦ rw all (record {
          same_match = refl;
          same_key = refl;
          same_window = refl;
          same_introduction = refl;
          same_members = members-insert member _ w.previews e;
          added = (preview_decision member d, at) ∷ (both_sides_approved, at) ∷ [];
          grown = append_assoc w.history _ _;
        })
        | inr few ↦ rw few (record {
          same_match = refl;
          same_key = refl;
          same_window = refl;
          same_introduction = refl;
          same_members = members-insert member _ w.previews e;
          added = (preview_decision member d, at) ∷ [];
          grown = refl;
        })
      ]

-- A workflow that differs in its state, deadline, introduction and one event.
one_event-Continues :
    (w v : Workflow) (e : Event × ℕ)
    → v.match_id ≡ w.match_id
    → v.match_idempotency_key ≡ w.match_idempotency_key
    → v.veto_window_ms ≡ w.veto_window_ms
    → v.introduction.idempotency_key ≡ w.introduction.idempotency_key
    → members v.previews ≡ members w.previews
    → v.history ≡ w.history ++ e ∷ []
    → Continues w v
one_event-Continues w v e a b c d f g = record {
  same_match = a;
  same_key = b;
  same_window = c;
  same_introduction = d;
  same_members = f;
  added = e ∷ [];
  grown = g;
}

delivery-Continues :
    (w : Workflow) (member : Text) (p : Preview) (t : Text) (at : ℕ) {v : Workflow}
    → lookup member w.previews ≡ some p
    → open_veto_window (delivered w member p t at) at ≡ ok v
    → Continues w v
delivery-Continues w member p t at e o =
    let x = delivered w member p t at in
    let first : Continues w x =
      one_event-Continues w x (preview_sent member t, at) refl refl refl refl
        (members-insert member _ w.previews e) refl in
    elim (open_veto_window_cases x at o) [
      | inl f ↦ subst (Continues w) (sym f) first
      | inr (l, two, late, f) ↦ subst (Continues w) (sym f) (
          Continues-trans first (
            one_event-Continues x (opened x (l + w.veto_window_ms) at)
              (veto_window_opened (l + w.veto_window_ms), at) refl refl refl refl refl refl))
    ]

call-Continues : (c : Call) (w : Workflow) {v : Workflow} → call c w ≡ ok v → Continues w v
unfolding call
call-Continues (queues_previews at) w {v} k = elim (queue_previews_cases w v at k) [
  | inl e ↦ subst (Continues w) (sym e) (Continues-refl w)
  | inr e ↦ subst (Continues w) (sym e) (one_event-Continues w _ _ refl refl refl refl refl refl)
]
call-Continues (delivers_preview member id at) w k =
    elim (mark_preview_sent_cases w member id at k) [
      | inl e ↦ subst (Continues w) (sym e) (Continues-refl w)
      | inr (p, t, e, waits, a, i, o) ↦ delivery-Continues w member p t at e o
    ]
call-Continues (decides member text at) w k =
    elim (record_preview_decision_cases w member text at k) [
      | inl e ↦ subst (Continues w) (sym e) (Continues-refl w)
      | inr (p, d, e, out, r, a, s, f) ↦
          subst (Continues w) (sym f) (settle-Continues w member p d at e)
    ]
call-Continues (advances now) w k = elim (advance_cases w now k) [
  | inl e ↦ subst (Continues w) (sym e) (Continues-refl w)
  | inr (s, late, e) ↦
      subst (Continues w) (sym e) (one_event-Continues w _ _ refl refl refl refl refl refl)
]
call-Continues (queues_introduction at) w k = elim (queue_introduction_cases w at k) [
  | inl e ↦ subst (Continues w) (sym e) (Continues-refl w)
  | inr (s, e) ↦
      subst (Continues w) (sym e) (one_event-Continues w _ _ refl refl refl refl refl refl)
]
call-Continues (introduces id at) w k = elim (mark_introduced_cases w id at k) [
  | inl (e, s) ↦ subst (Continues w) (sym e) (Continues-refl w)
  | inr (t, s, i, e) ↦
      subst (Continues w) (sym e) (one_event-Continues w _ _ refl refl refl refl refl refl)
]

kept-Continues : (c : Call) (w : Workflow) → Continues w (kept w (call c w))
kept-Continues c w = elim (Result-cases (call c w)) [
  | inl (v, e) ↦ rw e (call-Continues c w e)
  | inr (x, e) ↦ rw e (Continues-refl w)
]

-- No sequence of calls, whether or not some of them throw, changes the match, its two members, its
-- window or the idempotency key of its one introduction, or rewrites the history.
pub run-Continues : (w : Workflow) (cs : List Call) → Continues w (run w cs)
unfolding run
run-Continues w [] = Continues-refl w
run-Continues w (c ∷ cs) =
    Continues-trans (kept-Continues c w) (run-Continues (kept w (call c w)) cs)
