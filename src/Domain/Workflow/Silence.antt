-- ===== src/Domain/Workflow/Silence.antt =====
-- The ordinary course of a match: silence through the veto window ends in the introduction.
use yente.Prelude.{
  Text, ℕ, ◌+◌, ◌≤◌, ◌<◌, ◌≡◌, refl, true, false, none, some, [], ◌∷◌, ok, arith, codes, ◌++◌, same,
  same_refl, same_iff, lookup, insert, max_date, max,
}
use yente.Domain.Workflow.{
  Workflow, Preview, new_preview, match_proposed, previews_were_queued, create_match_workflow,
  Delivery, previews_queued, Input, introduced, propose_match, queue_previews, mark_preview_sent,
  require_member, deliver, open_veto_window, deliveries, latest, advance_veto_deadline,
  queue_introduction, mark_introduced, veto_window,
}
use yente.Domain.Workflow.Runs.{
  call, delivers_preview, advances, queues_introduction, introduces, run,
}

-- The input of a match of two members.
abbrev pub pair_input : Text → Text → Text → Text → ℕ → ℕ → Input
pair_input id key a b at window = record {
  match_id = id;
  match_result = some (record { eligible = true; idempotency_key = key });
  member_ids = a ∷ b ∷ [];
  created_at = at;
  veto_window_ms = window;
}

-- Two deliveries open the window, whose deadline is a window after the later one.
deliveries_open :
    (w : Workflow) (a b : Text) (p q : Preview) (c d : ℕ) (s t : Text) (m n : ℕ)
    → same a b ≡ false
    → w.state ≡ previews_queued
    → w.previews ≡ (a, p) ∷ (b, q) ∷ []
    → p.delivery ≡ Delivery.pending
    → q.delivery ≡ Delivery.pending
    → max m n + w.veto_window_ms ≤ max_date
    → let v =
        run w (delivers_preview a (some (c ∷ s)) m ∷ delivers_preview b (some (d ∷ t)) n ∷ []) in
      (v.state ≡ veto_window) × (v.deadline_at ≡ some (max m n + w.veto_window_ms))
unfolding run call mark_preview_sent require_member deliver open_veto_window deliveries latest
    lookup insert
deliveries_open w a b p q c d s t m n ne st ps hp hq fits =
    ground (arith, same_refl a, same_refl b, same_iff a b, same_iff b a)

-- A window that nobody answered ends in the introduction.
silence_introduces :
    (w : Workflow) (d now c : ℕ) (t : Text)
    → w.state ≡ veto_window
    → w.deadline_at ≡ some d
    → d ≤ now
    → now ≤ max_date
    → let v = run w (advances now ∷ queues_introduction now ∷ introduces (some (c ∷ t)) now ∷ []) in
      (v.state ≡ introduced) × (v.introduction.message_id ≡ some (c ∷ t))
unfolding run call advance_veto_deadline queue_introduction mark_introduced
silence_introduces w d now c t s due late valid = ground arith

-- The workflow that `create_match_workflow` returns for two members.
abbrev queued_pair : Text → Text → Text → Text → ℕ → ℕ → Workflow
queued_pair id key a b at window = record {
  match_id = id;
  match_idempotency_key = key;
  state = previews_queued;
  veto_window_ms = window;
  deadline_at = none;
  previews = (a, new_preview) ∷ (b, new_preview) ∷ [];
  introduction = record {
    idempotency_key = id ++ codes ":joint-introduction";
    message_id = none;
    sent_at = none;
  };
  history = (match_proposed, at) ∷ (previews_were_queued, at) ∷ [];
}

created_pair :
    (id key a b : Text) (at window : ℕ)
    → same a b ≡ false
    → 0 < window
    → at ≤ max_date
    → create_match_workflow (pair_input id key a b at window)
      ≡ ok (queued_pair id key a b at window)
unfolding create_match_workflow propose_match queue_previews
created_pair id key a b at window ne w valid = ground arith

-- An eligible match of two members, whose previews go out at `m` and `n` and are not answered, is
-- created, and is introduced under the message id that the mailer gives when the deadline is looked at
-- `window` or more after the later delivery.
pub silent_match :
    (id key a b : Text) (at window m n now c d e : ℕ) (s t u : Text)
    → same a b ≡ false
    → 0 < window
    → at ≤ max_date
    → max m n + window ≤ now
    → now ≤ max_date
    → (w : Workflow) × (create_match_workflow (pair_input id key a b at window) ≡ ok w)
      × (let v = run w (
            delivers_preview a (some (c ∷ s)) m
            ∷ delivers_preview b (some (d ∷ t)) n
            ∷ advances now
            ∷ queues_introduction now
            ∷ introduces (some (e ∷ u)) now
            ∷ []) in
          (v.state ≡ introduced) × (v.introduction.message_id ≡ some (e ∷ u)))
unfolding run
silent_match id key a b at window m n now c d e s t u ne w valid due late =
    let x = queued_pair id key a b at window in
    let (st, deadline) =
      deliveries_open x a b new_preview new_preview c d s t m n ne refl refl refl refl
        (omega arith) in
    (
      x,
      created_pair id key a b at window ne w valid,
      silence_introduces _ (max m n + window) now e u st deadline due late,
    )
