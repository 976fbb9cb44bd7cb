-- ===== src/Runtime/Deadlines.antt =====
-- src/runtime/yente.js: `advanceDeadlines`, the sweep that releases the introductions. The text of the
-- letter is an argument.
pub mod Released
mod Tests
use yente.Prelude.{
  Text, ℕ, Bool, true, false, not, ◌&&◌, Option, none, some, List, [], ◌∷◌, ◌++◌, codes, Result, ok,
  err, ◌>>=◌, if◌then◌else◌,
}
use yente.Domain.Member.{Member, can_receive_outbound}
use yente.Domain.Outbox.{Email}
use yente.Domain.Workflow.{
  Workflow, Preview, State, veto_window, ready_to_introduce, advance_veto_deadline,
  queue_introduction,
}
use yente.Domain.Workflow
use yente.Store.Cells.{Engine}
use yente.Store.Keys.{member_key, joint_introduction}
use yente.Store.Keys
use yente.Store.Outbox.{Letter, Context}
use yente.Runtime.Desk.{Stores, Error, bad_key, bad_match, queue}

abbrev pub is_waiting : State → Bool
is_waiting veto_window = true
is_waiting _ = false

abbrev pub is_ready : State → Bool
is_ready ready_to_introduce = true
is_ready _ = false

unfoldable pub ids_of : List (Text × Preview) → List Text
ids_of [] = []
ids_of ((id, p) ∷ rest) = id ∷ ids_of rest

abbrev pub as_match : Result Workflow.Error Workflow → Result Error Workflow
as_match (ok w) = ok w
as_match (err e) = err (bad_match e)

-- The match once its deadline has been looked at.
abbrev pub cleared : Workflow → ℕ → Result Error Workflow
cleared w now = if is_waiting w.state then as_match (advance_veto_deadline w now) else ok w

abbrev pub may_receive : Option Member → Bool
may_receive none = true
may_receive (some m) = can_receive_outbound m

module _ {O P W M I : Type 0} (st : Stores O P W M I) (digest : Text → Text)
    (wording : Error → Text) (compose : Text → Workflow → Letter) where
  -- Whether some member may not be written to; the first one that may not ends the search.
  unfoldable pub some_stopped : P → List Text → Result Error Bool
  some_stopped people [] = ok false
  some_stopped people (a ∷ rest) =
      let others = some_stopped people rest in
      elim (member_key digest a) [
        | err e ↦ err (bad_key e)
        | ok id ↦ if may_receive (st.people.get people id) then others else ok true
      ]

  -- `none` is `continue`. A match whose window is still running is left as it is, and one with a member
  -- who stopped as well.
  abbrev pub if_live : Workflow → ℕ → Bool → Result Error (Option Workflow)
  if_live w now true = ok none
  if_live w now false = elim (as_match (queue_introduction w now)) [
    | ok v ↦ ok (some v)
    | err e ↦ err e
  ]

  unfoldable pub release : P → ℕ → Workflow → Result Error (Option Workflow)
  release people now row = do
    w ← cleared row now
    if is_ready w.state
        then (some_stopped people (ids_of w.previews) >>= if_live w now)
        else ok none

  abbrev pub introduction_email : Text → List Text → ℕ → Email
  introduction_email key recipients now = record {
    job_id = key;
    idempotency_key = key;
    purpose = codes "joint_introduction";
    recipients = recipients;
    enqueued_at = now;
    headers = [];
    backoff = record { base_ms = none; max_ms = none; max_attempts = none };
  }

  -- The matches, the outbox, the ids of the matches whose introduction was queued, and the error that
  -- ended the sweep, if any.
  pub record Sweep : Type 0 where
    pub matches : W
    pub outbox : O
    pub introduced : List Text
    pub failed : Option Error

  abbrev pub after_queue : Text → Result Error (O × Bool) → Sweep → Sweep
  after_queue id (ok x) s = record s { outbox = x.0; introduced = s.introduced ++ id ∷ [] }
  after_queue id (err e) s = record s { failed = some e }

  abbrev pub send_letter : P → ℕ → Text → Workflow → Result Keys.Error Text → Sweep → Sweep
  send_letter people now id row (err e) s = record s { failed = some (bad_key e) }
  send_letter people now id row (ok key) s =
      after_queue id
        (queue st digest wording (introduction_email key (ids_of row.previews) now) (compose id row)
          (some (record { match_id = id; recipient = none })) people s.outbox)
        s

  abbrev pub after_release :
      P → ℕ → Text → Workflow → Result Error (Option Workflow) → Sweep → Sweep
  after_release people now id row (err e) s = record s { failed = some e }
  after_release people now id row (ok none) s = s
  after_release people now id row (ok (some w)) s =
      send_letter people now id row (joint_introduction digest id)
        (record s { matches = st.matches.put s.matches id w })

  abbrev pub at_row : P → ℕ → Text → Option Workflow → Sweep → Sweep
  at_row people now id none s = s
  at_row people now id (some row) s = after_release people now id row (release people now row) s

  unfoldable pub sweep_rows : P → ℕ → W → List Text → Sweep → Sweep
  sweep_rows people now start [] s = s
  sweep_rows people now start (id ∷ ids) s = elim s.failed [
    | some e ↦ s
    | none ↦ sweep_rows people now start ids (at_row people now id (st.matches.get start id) s)
  ]

  unfoldable pub advance_deadlines : P → ℕ → W → O → Sweep
  advance_deadlines people now matches outbox =
      sweep_rows people now matches (st.matches.ids matches)
        (record { matches = matches; outbox = outbox; introduced = []; failed = none })
