-- ===== src/Domain/Workflow.antt =====
-- src/domain/workflow.js: the workflow of one proposed match, from the two private previews to the
-- joint introduction. A function that throws returns `err`; a record is returned anew, as the
-- source clones it. Member ids are own keys of `previews`.
pub mod Previews
pub mod Runs
pub mod Cases
pub mod Invariant
pub mod Preserved
pub mod Safety
pub mod Retries
pub mod Continuity
pub mod Silence
mod Tests
use yente.Prelude.{
  Text, ℕ, ◌+◌, Bool, true, false, not, ◌&&◌, Option, none, some, List, [], ◌∷◌, ◌++◌, map, Result,
  ok, err, ◌>>=◌, ◌>>◌, throw_if, timestamp, max_date, leb, ltb, same, lookup, insert, codes,
  length, ◌==◌, max, if◌then◌else◌,
}

pub data State : Type 0 where
  proposed previews_queued veto_window ready_to_introduce introduction_queued introduced : State
  vetoed invalidated_by_correction cancelled_by_stop cancelled_by_deletion : State
  delivery_failed : State

pub data Delivery : Type 0 where
  pending sent : Delivery

pub data Decision : Type 0 where
  pending approve pass correct stop delete : Decision

pub record Preview : Type 0 where
  pub delivery : Delivery
  pub message_id : Option Text
  pub delivered_at : Option ℕ
  pub decision : Decision
  pub decided_at : Option ℕ

pub record Introduction : Type 0 where
  pub idempotency_key : Text
  pub message_id : Option Text
  pub sent_at : Option ℕ

-- The events of the history, with their details.
pub data Event : Type 0 where
  match_proposed previews_were_queued both_sides_approved veto_window_cleared : Event
  preview_sent : Text → Text → Event
  veto_window_opened : ℕ → Event
  preview_decision : Text → Decision → Event
  introduction_was_queued : Text → Event
  was_introduced : Text → Event

pub record Workflow : Type 0 where
  pub match_id : Text
  pub match_idempotency_key : Text
  pub state : State
  pub veto_window_ms : ℕ
  pub deadline_at : Option ℕ
  pub previews : List (Text × Preview)
  pub introduction : Introduction
  pub history : List (Event × ℕ)

pub data Error : Type 0 where
  invalid_timestamp invalid_date not_a_member ineligible_match members_not_distinct : Error
  veto_window_not_positive missing_message_id unsupported_decision preview_not_sent : Error
  sent_with_another_message_id introduced_with_another_message_id : Error
  terminal_match wrong_state : State → Error
  already_decided : Decision → Error

-- TERMINAL_STATES
abbrev pub is_terminal : State → Bool
is_terminal introduced = true
is_terminal vetoed = true
is_terminal invalidated_by_correction = true
is_terminal cancelled_by_stop = true
is_terminal cancelled_by_deletion = true
is_terminal delivery_failed = true
is_terminal _ = false

unfoldable pub require_member : Workflow → Text → Result Error Preview
require_member w member = elim (lookup member w.previews) [
  | none ↦ err not_a_member
  | some preview ↦ ok preview
]

abbrev pub require_mutable : Workflow → Result Error (Unit {0})
require_mutable w = throw_if (is_terminal w.state) (terminal_match w.state)

-- `appendHistory`, on the list of events.
abbrev pub append_history : List (Event × ℕ) → Event → ℕ → List (Event × ℕ)
append_history history event at = history ++ (event, at) ∷ []

abbrev pub new_preview : Preview
new_preview = record {
  delivery = Delivery.pending;
  message_id = none;
  delivered_at = none;
  decision = Decision.pending;
  decided_at = none;
}

-- What the match engine concluded: the fields that the workflow reads.
pub record MatchResult : Type 0 where
  pub eligible : Bool
  pub idempotency_key : Text

pub record Input : Type 0 where
  pub match_id : Text
  pub match_result : Option MatchResult
  pub member_ids : List Text
  pub created_at : ℕ
  pub veto_window_ms : ℕ

abbrev pub two_distinct : List Text → Bool
two_distinct (a ∷ b ∷ []) = not (same a b)
two_distinct _ = false

abbrev eligible_result : Option MatchResult → Result Error MatchResult
eligible_result none = err ineligible_match
eligible_result (some r) = if r.eligible then ok r else err ineligible_match

unfoldable pub propose_match : Input → Result Error Workflow
propose_match i = do
  result ← eligible_result i.match_result
  throw_if (not (two_distinct i.member_ids)) members_not_distinct
  throw_if (leb i.veto_window_ms 0) veto_window_not_positive
  at ← timestamp invalid_timestamp i.created_at
  ok (record {
    match_id = i.match_id;
    match_idempotency_key = result.idempotency_key;
    state = proposed;
    veto_window_ms = i.veto_window_ms;
    deadline_at = none;
    previews = map (λ id. (id, new_preview)) i.member_ids;
    introduction = record {
      idempotency_key = i.match_id ++ codes ":joint-introduction";
      message_id = none;
      sent_at = none;
    };
    history = (match_proposed, at) ∷ [];
  })

abbrev queue_previews_in : State → Workflow → ℕ → Result Error Workflow
queue_previews_in previews_queued w queued_at = ok w
queue_previews_in proposed w queued_at = do
  at ← timestamp invalid_timestamp queued_at
  ok (record w {
    state = previews_queued;
    history = append_history w.history previews_were_queued at;
  })
queue_previews_in s w queued_at =
    if is_terminal s then err (terminal_match s) else err (wrong_state s)

unfoldable pub queue_previews : Workflow → ℕ → Result Error Workflow
queue_previews w queued_at = queue_previews_in w.state w queued_at

unfoldable pub create_match_workflow : Input → Result Error Workflow
create_match_workflow i = do w ← propose_match i; queue_previews w i.created_at

-- `Object.values(previews).filter(sent)`, as their dates of delivery.
unfoldable pub deliveries : List (Text × Preview) → List (Option ℕ)
deliveries [] = []
deliveries ((id, p) ∷ ps) =
    let rest = deliveries ps in
    elim p.delivery [ Delivery.sent ↦ p.delivered_at ∷ rest | Delivery.pending ↦ rest ]

-- `Math.max` of parsed dates; `none` is NaN.
unfoldable pub latest : List (Option ℕ) → Option ℕ
latest [] = some 0
latest (none ∷ ts) = none
latest (some t ∷ ts) = elim (latest ts) [ none ↦ none | some u ↦ some (max t u) ]

-- `new Date(ms).toISOString()`
abbrev to_iso : Option ℕ → Result Error ℕ
to_iso none = err invalid_date
to_iso (some ms) = if leb ms max_date then ok ms else err invalid_date

abbrev plus_window : ℕ → Option ℕ → Option ℕ
plus_window window none = none
plus_window window (some t) = some (t + window)

abbrev start_veto_window : Workflow → ℕ → Result Error Workflow
start_veto_window next at = do
  deadline ← to_iso (plus_window next.veto_window_ms (latest (deliveries next.previews)))
  ok (record next {
    deadline_at = some deadline;
    state = veto_window;
    history = append_history next.history (veto_window_opened deadline) at;
  })

-- The veto window opens when both previews are out.
unfoldable pub open_veto_window : Workflow → ℕ → Result Error Workflow
open_veto_window next at =
    if length (deliveries next.previews) == 2 then start_veto_window next at else ok next

abbrev pub accepts_delivery : State → Bool
accepts_delivery previews_queued = true
accepts_delivery veto_window = true
accepts_delivery _ = false

abbrev sent_text : Option Text → Result Error Text
sent_text none = err missing_message_id
sent_text (some []) = err missing_message_id
sent_text (some (c ∷ cs)) = ok (c ∷ cs)

abbrev is_same : Option Text → Text → Bool
is_same none t = false
is_same (some s) t = same s t

unfoldable pub deliver : Workflow → Text → Preview → Text → ℕ → Result Error Workflow
deliver w member existing message_id sent_at = elim existing.delivery [
  | Delivery.sent ↦
      if is_same existing.message_id message_id then ok w else err sent_with_another_message_id
  | Delivery.pending ↦ do
    at ← timestamp invalid_timestamp sent_at
    let preview = record existing {
      delivery = Delivery.sent;
      message_id = some message_id;
      delivered_at = some at;
    }
    let next = record w {
      previews = insert member preview w.previews;
      history = append_history w.history (preview_sent member message_id) at;
    }
    open_veto_window next at
]

unfoldable pub mark_preview_sent : Workflow → Text → Option Text → ℕ → Result Error Workflow
mark_preview_sent w member message_id sent_at = do
  require_mutable w
  existing ← require_member w member
  throw_if (not (accepts_delivery w.state)) (wrong_state w.state)
  id ← sent_text message_id
  deliver w member existing id sent_at

-- PREVIEW_DECISIONS, less PENDING, which is no decision to record.
abbrev pub preview_decisions : List (Text × Decision)
preview_decisions =
    (codes "APPROVE", approve)
    ∷ (codes "PASS", pass)
    ∷ (codes "CORRECT", correct)
    ∷ (codes "STOP", stop)
    ∷ (codes "DELETE", delete)
    ∷ []

unfoldable pub supported_decision : Text → Result Error Decision
supported_decision text = elim (lookup text preview_decisions) [
  | none ↦ err unsupported_decision
  | some d ↦ ok d
]

abbrev pub accepts_decision : State → Bool
accepts_decision veto_window = true
accepts_decision ready_to_introduce = true
accepts_decision _ = false

-- The state that a decision leads to, before both approvals are looked for.
abbrev pub state_after : Decision → State → State
state_after pass s = vetoed
state_after correct s = invalidated_by_correction
state_after stop s = cancelled_by_stop
state_after delete s = cancelled_by_deletion
state_after _ s = s

abbrev pub is_approve : Decision → Bool
is_approve approve = true
is_approve _ = false

-- `Object.values(previews).every(approved)`
unfoldable pub all_approve : List (Text × Preview) → Bool
all_approve [] = true
all_approve ((id, p) ∷ ps) = is_approve p.decision && all_approve ps

-- The write, once the decision is admissible.
unfoldable pub settle : Workflow → Text → Preview → Decision → ℕ → Workflow
settle w member preview d at =
    let previews =
      insert member (record preview { decision = d; decided_at = some at }) w.previews in
    let history = append_history w.history (preview_decision member d) at in
    if all_approve previews
    then record w {
      previews = previews;
      state = ready_to_introduce;
      history = append_history history both_sides_approved at;
    }
    else record w { previews = previews; state = state_after d w.state; history = history }

-- What a new decision meets: the same one, one that may be replaced, or a blocking one.
abbrev pub replaces : Decision → Bool
replaces Decision.pending = true
replaces approve = true
replaces _ = false

abbrev pub same_decision : Decision → Decision → Bool
same_decision Decision.pending Decision.pending = true
same_decision approve approve = true
same_decision pass pass = true
same_decision correct correct = true
same_decision stop stop = true
same_decision delete delete = true
same_decision _ _ = false

abbrev is_sent : Delivery → Bool
is_sent Delivery.sent = true
is_sent Delivery.pending = false

unfoldable pub decide : Workflow → Text → Preview → Decision → ℕ → Result Error Workflow
decide w member preview d decided_at = if same_decision preview.decision d then ok w else do
  throw_if (not (replaces preview.decision)) (already_decided preview.decision)
  at ← timestamp invalid_timestamp decided_at
  ok (settle w member preview d at)

unfoldable pub record_preview_decision : Workflow → Text → Text → ℕ → Result Error Workflow
record_preview_decision w member decision decided_at = do
  require_mutable w
  preview ← require_member w member
  throw_if (not (accepts_decision w.state)) (wrong_state w.state)
  d ← supported_decision decision
  throw_if (not (is_sent preview.delivery)) preview_not_sent
  decide w member preview d decided_at

-- `Date.parse(at) < Date.parse(deadline)`: false when there is no deadline (NaN).
abbrev pub is_before : ℕ → Option ℕ → Bool
is_before at none = false
is_before at (some deadline) = ltb at deadline

abbrev advance_in : State → Workflow → ℕ → Result Error Workflow
advance_in veto_window w now = do
  at ← timestamp invalid_timestamp now
  if is_before at w.deadline_at
      then ok w
      else ok (record w {
        state = ready_to_introduce;
        history = append_history w.history veto_window_cleared at;
      })
advance_in _ w now = ok w

unfoldable pub advance_veto_deadline : Workflow → ℕ → Result Error Workflow
advance_veto_deadline w now = require_mutable w >> advance_in w.state w now

abbrev queue_introduction_in : State → Workflow → ℕ → Result Error Workflow
queue_introduction_in introduction_queued w queued_at = ok w
queue_introduction_in ready_to_introduce w queued_at = do
  at ← timestamp invalid_timestamp queued_at
  ok (record w {
    state = introduction_queued;
    history = append_history w.history (introduction_was_queued w.introduction.idempotency_key) at;
  })
queue_introduction_in s w queued_at = err (wrong_state s)

unfoldable pub queue_introduction : Workflow → ℕ → Result Error Workflow
queue_introduction w queued_at = require_mutable w >> queue_introduction_in w.state w queued_at

-- `a === b` on ids that may be missing.
abbrev same_id : Option Text → Option Text → Bool
same_id none none = true
same_id (some s) (some t) = same s t
same_id _ _ = false

abbrev mark_introduced_in : State → Workflow → Option Text → ℕ → Result Error Workflow
mark_introduced_in introduced w message_id sent_at =
    if same_id w.introduction.message_id message_id
    then ok w
    else err introduced_with_another_message_id
mark_introduced_in introduction_queued w message_id sent_at = do
  id ← sent_text message_id
  at ← timestamp invalid_timestamp sent_at
  ok (record w {
    state = introduced;
    introduction = record w.introduction { message_id = some id; sent_at = some at };
    history = append_history w.history (was_introduced id) at;
  })
mark_introduced_in s w message_id sent_at =
    if is_terminal s then err (terminal_match s) else err (wrong_state s)

unfoldable pub mark_introduced : Workflow → Option Text → ℕ → Result Error Workflow
mark_introduced w message_id sent_at = mark_introduced_in w.state w message_id sent_at
