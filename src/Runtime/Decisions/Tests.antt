-- ===== src/Runtime/Decisions/Tests.antt =====
-- A member in an open match who stops, at concrete inputs.
use yente.Prelude.{
  Text, ◌≡◌, refl, subst, false, none, some, List, [], ◌∷◌, codes, lookup, same, arith, Bool-cases,
  inl, inr, ok,
}
use yente.Domain.Address.{
  normalize_address, trim, trim_start, trim_end, is_space, lower, last_index_of,
}
use yente.Domain.Member.{Member, can_receive_outbound}
use yente.Domain.Member
use yente.Domain.Workflow.{Workflow, Input, proposed, propose_match, new_preview, match_proposed}
use yente.Domain.Workflow.Runs.{
  Call, queues_previews, delivers_preview, Reached, proposal, run, Reached-run,
}
use yente.Domain.Workflow.Silence.{pair_input}
use yente.Store.Cells.{Engine}
use yente.Store.Cells.Laws.{list_engine}
use yente.Store.Keys.{member_key, segment, all_safe}
use yente.Runtime.Decisions.{stop, Desk, receive_stop}
use yente.Runtime.Decisions.Cancelled.{AllReached, Ends}
use yente.Runtime.Decisions.Stopped.{receive_stop-Ends}

abbrev hashed : Text → Text
hashed t = t

abbrev ann : Text
ann = codes "ann@a.io"

abbrev bob : Text
bob = codes "bob@b.io"

abbrev couple : Input
couple = pair_input (codes "m1") (codes "k1") ann bob 5 1000

abbrev start : Workflow
start = record {
  match_id = codes "m1";
  match_idempotency_key = codes "k1";
  state = proposed;
  veto_window_ms = 1000;
  deadline_at = none;
  previews = (ann, new_preview) ∷ (bob, new_preview) ∷ [];
  introduction = record {
    idempotency_key = codes "m1:joint-introduction";
    message_id = none;
    sent_at = none;
  };
  history = (match_proposed, 5) ∷ [];
}

start-Reached : Reached couple start
unfolding propose_match same
start-Reached = proposal refl

abbrev to_window : List Call
to_window =
    queues_previews 6
    ∷ delivers_preview ann (some (codes "<a>")) 10
    ∷ delivers_preview bob (some (codes "<b>")) 20
    ∷ []

abbrev in_window : Workflow
in_window = run start to_window

abbrev member : Member
member = record {
  member_id = ann;
  address = ann;
  state = Member.active;
  inbound_established_at = 1;
  qualifications = [];
  stopped_at = none;
  deleted_at = none;
  history = [];
}

abbrev people : Engine Member (List (Text × Member))
people = list_engine

abbrev matches : Engine Workflow (List (Text × Workflow))
matches = list_engine

abbrev desk : Desk people matches hashed
desk = record {
  members = (ann, member) ∷ [];
  matches = (codes "m1", in_window) ∷ [];
  failed = none;
}

one_match : (id : Text) (w : Workflow) → lookup id desk.matches ≡ some w → in_window ≡ w
unfolding lookup
one_match id w g = elim (Bool-cases (same (codes "m1") id)) [
  | inl s ↦ ground (arith, g, s)
  | inr n ↦ absurd (ground (arith, g, n))
]

desk-AllReached : AllReached matches desk.matches
desk-AllReached id w g =
    (couple, subst (Reached couple) (one_match id w g) (Reached-run start to_window start-Reached))

ann_key : member_key hashed ann ≡ ok ann
unfolding member_key segment all_safe normalize_address trim trim_start trim_end is_space lower
    last_index_of
ann_key = refl

receive_stop-Ends_example :
    ((receive_stop people matches hashed ann stop 30 desk).failed ≡ none)
    × ((n : Member) × (lookup ann (receive_stop people matches hashed ann stop 30 desk).members
          ≡ some n)
        × (can_receive_outbound n ≡ false))
    × ((v : Workflow) × (lookup
            (codes "m1")
            (receive_stop people matches hashed ann stop 30 desk).matches
          ≡ some v)
        × Ends matches ann stop in_window v)
unfolding lookup same can_receive_outbound
receive_stop-Ends_example =
    receive_stop-Ends people matches hashed ann stop 30 desk ann member (codes "m1") in_window
      ann_key refl ann_key refl desk-AllReached refl (omega arith)
