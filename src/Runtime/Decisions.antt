-- ===== src/Runtime/Decisions.antt =====
-- src/runtime/yente.js: what a member's word does to the matches, `recordDecision` and `cancelPendingFor`,
-- and the first branch of the inbox, a member who stops or asks for deletion. The rows are read before
-- the loop, which a decision that throws ends.
pub mod Taken
pub mod Cancelled
pub mod Stopped
mod Tests
use yente.Prelude.{
  Text, ℕ, Bool, true, false, not, ◌&&◌, Option, none, some, is_some, List, [], ◌∷◌, ◌++◌, codes,
  lookup, Result, ok, err, ◌>>=◌, if◌then◌else◌,
}
use yente.Domain.Member.{Member, stop_member, delete_member}
use yente.Domain.Member
use yente.Domain.Workflow.{Workflow, Error, accepts_decision, record_preview_decision}
use yente.Store.Cells.{Engine}
use yente.Store.Keys.{member_key}
use yente.Store.Keys

-- What a member answers to a preview, and what ends everything.
pub data Intent : Type 0 where
  pass introduce correct : Intent

pub data Stop : Type 0 where
  stop delete : Stop

abbrev pub decision_of : Intent → Text
decision_of pass = codes "PASS"
decision_of introduce = codes "APPROVE"
decision_of correct = codes "CORRECT"

abbrev pub stop_decision : Stop → Text
stop_decision stop = codes "STOP"
stop_decision delete = codes "DELETE"

-- What the loop does with a row: `continue`, write, throw.
pub data Step : Type 0 where
  skips : Step
  writes : Workflow → Step
  throws : Error → Step

abbrev pub concerns : Text → Workflow → Bool
concerns address w = is_some (lookup address w.previews) && accepts_decision w.state

abbrev pub step_of_result : Result Error Workflow → Step
step_of_result (ok w) = writes w
step_of_result (err e) = throws e

abbrev pub step_of : Text → Text → ℕ → Workflow → Step
step_of address decision now w =
    if concerns address w
    then step_of_result (record_preview_decision w address decision now)
    else skips

abbrev pub step_at : Text → Text → ℕ → Option Workflow → Step
step_at address decision now none = skips
step_at address decision now (some w) = step_of address decision now w

module _ {W : Type 0} (e : Engine Workflow W) where
  -- The matches, the ids that were written, and the error that ended the loop, if any.
  pub record Decided : Type 0 where
    pub matches : W
    pub touched : List Text
    pub failed : Option Error

  unfoldable pub decide_rows : Text → Text → ℕ → W → List Text → Decided → Decided
  decide_rows address decision now start [] s = s
  decide_rows address decision now start (id ∷ ids) s =
      elim (step_at address decision now (e.get start id)) [
        | skips ↦ decide_rows address decision now start ids s
        | writes w ↦
            decide_rows address decision now start ids
              (record s { matches = e.put s.matches id w; touched = s.touched ++ id ∷ [] })
        | throws x ↦ record s { failed = some x }
      ]

  abbrev pub undecided : W → Decided
  undecided db = record { matches = db; touched = []; failed = none }

  unfoldable pub record_decision : Text → Intent → ℕ → W → Decided
  record_decision address intent now db =
      decide_rows address (decision_of intent) now db (e.ids db) (undecided db)

  unfoldable pub cancel_pending_for : Text → Stop → ℕ → W → Decided
  cancel_pending_for address intent now db =
      decide_rows address (stop_decision intent) now db (e.ids db) (undecided db)

pub data Failure : Type 0 where
  bad_key : Keys.Error → Failure
  bad_member : Member.Error → Failure
  bad_match : Error → Failure

abbrev pub inbound_request : Option Text
inbound_request = some (codes "inbound request")

abbrev pub ended : Stop → Member → ℕ → Result Member.Error Member
ended stop m now = stop_member m now inbound_request
ended delete m now = delete_member m now inbound_request

module _ {P W : Type 0} (people : Engine Member P) (e : Engine Workflow W)
    (digest : Text → Text) where
  -- The members, the matches, and the error with which a call ended, if any.
  pub record Desk : Type 0 where
    pub members : P
    pub matches : W
    pub failed : Option Failure

  abbrev pub match_failure : Option Error → Option Failure
  match_failure none = none
  match_failure (some x) = some (bad_match x)

  abbrev pub after_save : Text → Stop → ℕ → Member → Result Keys.Error Text → Desk → Desk
  after_save address intent now m (err x) s = record s { failed = some (bad_key x) }
  after_save address intent now m (ok id) s =
      let decided = cancel_pending_for e address intent now s.matches in
      record {
        members = people.put s.members id m;
        matches = decided.matches;
        failed = match_failure decided.failed;
      }

  abbrev pub after_end : Text → Stop → ℕ → Result Member.Error Member → Desk → Desk
  after_end address intent now (err x) s = record s { failed = some (bad_member x) }
  after_end address intent now (ok m) s =
      after_save address intent now m (member_key digest m.address) s

  abbrev pub end_existing : Text → Stop → ℕ → Option Member → Desk → Desk
  end_existing address intent now none s = s
  end_existing address intent now (some m) s = after_end address intent now (ended intent m now) s

  abbrev pub end_by_key : Text → Stop → ℕ → Result Keys.Error Text → Desk → Desk
  end_by_key address intent now (err x) s = record s { failed = some (bad_key x) }
  end_by_key address intent now (ok id) s =
      end_existing address intent now (people.get s.members id) s

  -- `stop` and `delete`, for the address that wrote.
  unfoldable pub receive_stop : Text → Stop → ℕ → Desk → Desk
  receive_stop address intent now s = end_by_key address intent now (member_key digest address) s
