-- ===== src/Domain/Workflow/Invariant.antt =====
-- What holds of a match workflow in each of its states.
use yente.Prelude.{
  Text, ℕ, ◌+◌, ◌≤◌, ◌≡◌, refl, ◌⊎◌, inl, inr, Option, some, List, [], ◌∷◌, ◌++◌, arith, length,
  subst,
}
use yente.Domain.Workflow.{
  Workflow, Preview, sent, Decision, approve, pass, correct, stop, delete, State, Event, proposed,
  previews_queued, veto_window, ready_to_introduce, introduction_queued, introduced, vetoed,
  invalidated_by_correction, cancelled_by_stop, cancelled_by_deletion, delivery_failed,
  veto_window_cleared, append_history,
}
use yente.Domain.Workflow.Previews.{All, Any}

-- An event that the history holds, with its time.
abbrev pub Occurs : Event → ℕ → List (Event × ℕ) → Type 0
Occurs e t [] = ⊥
Occurs e t ((f, u) ∷ h) = ((f ≡ e) × (u ≡ t)) ⊎ Occurs e t h

-- Delivered a full veto window before the deadline.
abbrev pub IsOnTime : ℕ → ℕ → Preview → Type 0
IsOnTime window deadline p =
    (p.delivery ≡ sent) × ((t : ℕ) × (p.delivered_at ≡ some t) × (t + window ≤ deadline))

-- No decision, or an approval.
abbrev pub IsOpen : Preview → Type 0
IsOpen p = (p.decision ≡ Decision.pending) ⊎ (p.decision ≡ approve)

abbrev pub IsUndecided : Preview → Type 0
IsUndecided p = p.decision ≡ Decision.pending

abbrev pub Has : Decision → Preview → Type 0
Has d p = p.decision ≡ d

-- Both previews are out, a full window before the deadline, and nobody has objected.
pub record IsDisclosed (window : ℕ) (due : Option ℕ) (ps : List (Text × Preview)) : Type 0 where
  pub deadline : ℕ
  pub has_deadline : due ≡ some deadline
  pub on_time : All (IsOnTime window deadline) ps
  pub open_decisions : All IsOpen ps

-- Both said yes, or the window closed in silence at its deadline or later.
abbrev pub IsAuthorised : Option ℕ → List (Text × Preview) → List (Event × ℕ) → Type 0
IsAuthorised deadline_at previews history =
    All (Has approve) previews
    ⊎ ((d : ℕ) × (t : ℕ) × (deadline_at ≡ some d) × (d ≤ t) × Occurs veto_window_cleared t history)

abbrev pub Disclosed : Workflow → Type 0
Disclosed w = IsDisclosed w.veto_window_ms w.deadline_at w.previews

abbrev pub Authorised : Workflow → Type 0
Authorised w = Disclosed w × IsAuthorised w.deadline_at w.previews w.history

abbrev pub Stage : State → Workflow → Type 0
Stage proposed w = All IsUndecided w.previews
Stage previews_queued w = All IsUndecided w.previews
Stage veto_window w = Disclosed w
Stage ready_to_introduce w = Authorised w
Stage introduction_queued w = Authorised w
Stage introduced w = Authorised w
Stage vetoed w = Any (Has pass) w.previews
Stage invalidated_by_correction w = Any (Has correct) w.previews
Stage cancelled_by_stop w = Any (Has stop) w.previews
Stage cancelled_by_deletion w = Any (Has delete) w.previews
Stage delivery_failed w = ⊥

pub record IsValid (w : Workflow) : Type 0 where
  pub size : length w.previews ≡ 2
  pub stage : Stage w.state w

pub Occurs-append_left :
    (e : Event) (t : ℕ) (h k : List (Event × ℕ)) → Occurs e t h → Occurs e t (h ++ k)
Occurs-append_left e t [] k o = absurd o
Occurs-append_left e t ((f, u) ∷ h) k o = ground (arith, Occurs-append_left e t h k)

pub Occurs-append_self : (e : Event) (t : ℕ) (h : List (Event × ℕ)) → Occurs e t (h ++ (e, t) ∷ [])
Occurs-append_self e t [] = inl (refl, refl)
Occurs-append_self e t ((f, u) ∷ h) = inr (Occurs-append_self e t h)

module _ {w : Workflow} (h : IsValid w) where
  pub Stage-at : (s : State) → w.state ≡ s → Stage s w
  Stage-at s e = subst (λ t. Stage t w) e h.stage

pub IsAuthorised-append :
    {o : Option ℕ} (ps : List (Text × Preview)) (h : List (Event × ℕ)) (e : Event) (t : ℕ)
    → IsAuthorised o ps h
    → IsAuthorised o ps (append_history h e t)
IsAuthorised-append ps h e t (inl a) = inl a
IsAuthorised-append ps h e t (inr (d, u, has, late, o)) =
    inr (d, u, has, late, Occurs-append_left veto_window_cleared u h _ o)
