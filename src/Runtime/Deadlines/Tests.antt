-- ===== src/Runtime/Deadlines/Tests.antt =====
-- A window that ran out, at concrete inputs.
use yente.Prelude.{
  Text, ◌≡◌, ◌⊎◌, refl, subst, none, some, List, [], ◌∷◌, codes, lookup, insert, same, arith,
  Bool-cases, inl, inr,
}
use yente.Domain.Address.{
  normalize_address, trim, trim_start, trim_end, is_space, lower, last_index_of,
}
use yente.Domain.Member.{Member}
use yente.Domain.Outbox.{enqueue_email}
use yente.Domain.Workflow.{
  Workflow, Input, proposed, propose_match, new_preview, match_proposed, advance_veto_deadline,
  queue_introduction, queue_previews, mark_preview_sent, require_member, deliver, open_veto_window,
  deliveries, latest,
}
use yente.Domain.Workflow.Runs.{
  Call, advances, queues_introduction, queues_previews, delivers_preview, Reached, proposal, call,
  run, Reached-run,
}
use yente.Domain.Workflow.Silence.{pair_input}
use yente.Store.Cells.Laws.{list_engine}
use yente.Store.Keys.{
  member_key, segment, all_safe, joint_introduction, introduction_key, outbox_key,
}
use yente.Store.Outbox.{Row, Letter, enqueue}
use yente.Runtime.Decisions.Cancelled.{AllReached}
use yente.Runtime.Desk.{Stores, Delivery, Introduced, Error, queue, all_live}
use yente.Runtime.Deadlines.{advance_deadlines, sweep_rows, release, some_stopped, ids_of}
use yente.Runtime.Deadlines.Released.{IsReleased, advance_deadlines-IsReleased}

abbrev hashed : Text → Text
hashed t = t

abbrev ann : Text
ann = codes "ann@a.io"

abbrev bob : Text
bob = codes "bob@b.io"

abbrev couple : Input
couple = pair_input (codes "m1") (codes "k1") ann bob 5 1000

abbrev start : Workflow
start = record {
  match_id = codes "m1";
  match_idempotency_key = codes "k1";
  state = proposed;
  veto_window_ms = 1000;
  deadline_at = none;
  previews = (ann, new_preview) ∷ (bob, new_preview) ∷ [];
  introduction = record {
    idempotency_key = codes "m1:joint-introduction";
    message_id = none;
    sent_at = none;
  };
  history = (match_proposed, 5) ∷ [];
}

start-Reached : Reached couple start
unfolding propose_match same
start-Reached = proposal refl

abbrev to_window : List Call
to_window =
    queues_previews 6
    ∷ delivers_preview ann (some (codes "<a>")) 10
    ∷ delivers_preview bob (some (codes "<b>")) 20
    ∷ []

abbrev in_window : Workflow
in_window = run start to_window

abbrev Rows : Type 0 → Type 0
Rows A = List (Text × A)

abbrev stores : Stores (Rows Row) (Rows Member) (Rows Workflow) (Rows Delivery) (Rows Introduced)
stores = record {
  outbox = list_engine;
  people = list_engine;
  matches = list_engine;
  messages = list_engine;
  introductions = list_engine;
}

abbrev wording : Error → Text
wording e = codes "error"

abbrev compose : Text → Workflow → Letter
compose id w = record { subject = codes "Meet"; text = codes "Ann, Bob."; in_reply_to = none }

abbrev rows : Rows Workflow
rows = (codes "m1", in_window) ∷ []

one_match : (id : Text) (w : Workflow) → lookup id rows ≡ some w → in_window ≡ w
unfolding lookup
one_match id w g = elim (Bool-cases (same (codes "m1") id)) [
  | inl s ↦ ground (arith, g, s)
  | inr n ↦ absurd (ground (arith, g, n))
]

rows-AllReached : AllReached stores.matches rows
rows-AllReached id w g =
    (couple, subst (Reached couple) (one_match id w g) (Reached-run start to_window start-Reached))

-- At its deadline the window is over, and the introduction is queued.
abbrev released : Workflow
released = run in_window (advances 1020 ∷ queues_introduction 1020 ∷ [])

release_is_queued :
    lookup (codes "m1") (advance_deadlines stores hashed wording compose [] 1020 rows []).matches
    ≡ some released
unfolding advance_deadlines sweep_rows release some_stopped ids_of member_key segment all_safe
    normalize_address trim trim_start trim_end is_space lower last_index_of joint_introduction
    introduction_key outbox_key queue all_live enqueue_email enqueue run call queue_previews
    mark_preview_sent require_member deliver open_veto_window deliveries latest
    advance_veto_deadline queue_introduction lookup insert same
release_is_queued = refl

advance_deadlines-IsReleased_example :
    (lookup (codes "m1") rows ≡ some released)
    ⊎ IsReleased stores hashed wording compose [] released
advance_deadlines-IsReleased_example =
    advance_deadlines-IsReleased stores hashed wording compose [] 1020 rows [] (codes "m1") released
      rows-AllReached release_is_queued
