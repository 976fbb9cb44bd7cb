-- ===== src/Domain/Outbox.antt =====
-- src/domain/outbox.js: one outbound email as a durable job. A function that throws returns `err`.
-- `Math.random()` is a fraction, given with each call that draws one; its product with the ceiling of a
-- backoff is taken exactly.
pub mod Runs
pub mod Cases
pub mod Attempts
pub mod Timing
pub mod Enrollment
mod Tests
use yente.Prelude.{
  Text, ℕ, zero, suc, ◌+◌, ◌-◌, ◌*◌, ◌/◌, ◌^◌, Bool, true, false, not, ◌&&◌, Option, none, some,
  List, [], ◌∷◌, ◌++◌, Result, ok, err, ◌>>=◌, ◌>>◌, throw_if, timestamp, leb, ltb, max_date,
  lookup, insert, codes, length, min, if◌then◌else◌, ◌==◌, map, same, truthy,
}
use yente.Domain.Address.{lower}

pub data Purpose : Type 0 where
  profile_request linkedin_request interview_question clarification profile_confirmation : Purpose
  conversation private_match_preview joint_introduction stop_confirmation : Purpose
  deletion_confirmation enrollment_invitation : Purpose

-- OUTBOUND_PURPOSES
abbrev pub outbound_purposes : List (Text × Purpose)
outbound_purposes =
    (codes "profile_request", profile_request)
    ∷ (codes "linkedin_request", linkedin_request)
    ∷ (codes "interview_question", interview_question)
    ∷ (codes "clarification", clarification)
    ∷ (codes "profile_confirmation", profile_confirmation)
    ∷ (codes "conversation", conversation)
    ∷ (codes "private_match_preview", private_match_preview)
    ∷ (codes "joint_introduction", joint_introduction)
    ∷ (codes "stop_confirmation", stop_confirmation)
    ∷ (codes "deletion_confirmation", deletion_confirmation)
    ∷ (codes "enrollment_invitation", enrollment_invitation)
    ∷ []

pub data State : Type 0 where
  pending sending sent retry_wait dead : State

-- TERMINAL_OUTBOX_STATES
abbrev pub is_terminal : State → Bool
is_terminal sent = true
is_terminal dead = true
is_terminal _ = false

pub data Reason : Type 0 where
  stalled_attempts_exhausted : Reason
  permanent_failure : Option Text → Reason
  attempts_exhausted : ℕ → Option Text → Reason

pub data Event : Type 0 where
  enqueued : Purpose → Text → Option Text → Event
  send_started : ℕ → Event
  was_sent : Text → ℕ → Event
  died : Reason → Event
  retry_scheduled : ℕ → ℕ → ℕ → Option Text → Event
  recovered_stalled_send : ℕ → ℕ → Event

pub record Invitation : Type 0 where
  pub thread_id : Text
  pub invited_by_member_id : Text

pub record Job : Type 0 where
  pub job_id : Text
  pub idempotency_key : Text
  pub purpose : Purpose
  pub recipients : List Text
  pub headers : List (Text × Text)
  pub state : State
  pub attempts : ℕ
  pub max_attempts : ℕ
  pub base_ms : ℕ
  pub max_ms : ℕ
  pub available_at : ℕ
  pub message_id : Option Text
  pub sent_at : Option ℕ
  pub last_error : Option Text
  pub invitation : Option Invitation
  pub history : List (Event × ℕ)

pub data Error : Type 0 where
  missing_job_id missing_idempotency_key unsupported_purpose no_recipients : Error
  missing_list_unsubscribe missing_list_unsubscribe_post not_one_recipient : Error
  bad_max_attempts bad_attempt invalid_timestamp invalid_date missing_message_id : Error
  already_sent is_dead already_sending sent_with_another_message_id : Error
  not_an_address missing_thread not_a_participant missing_member inviter_not_live : Error
  self_invitation : Error
  not_due : ℕ → Error
  wrong_state : State → Error

-- A backoff as a caller gives it, and DEFAULT_BACKOFF.
pub record Backoff : Type 0 where
  pub base_ms : Option ℕ
  pub max_ms : Option ℕ
  pub max_attempts : Option ℕ

abbrev pub given {ℓ} : {A : Type ℓ} → Option A → A → A
given none a = a
given (some a) b = a

abbrev pub default_base_ms : ℕ
default_base_ms = 60000

abbrev pub default_max_ms : ℕ
default_max_ms = 21600000

abbrev pub default_max_attempts : ℕ
default_max_attempts = 6

-- A value of `Math.random()`, `num / den`.
pub record Draw : Type 0 where
  pub num : ℕ
  pub den : ℕ

unfoldable pub backoff_ceiling : ℕ → ℕ → ℕ → ℕ
backoff_ceiling attempt base_ms max_ms = min (base_ms * 2 ^ (attempt - 1)) max_ms

unfoldable pub backoff_ms : ℕ → ℕ → ℕ → Draw → Result Error ℕ
backoff_ms zero base_ms max_ms draw = err bad_attempt
backoff_ms (suc n) base_ms max_ms draw =
    ok (draw.num * backoff_ceiling (suc n) base_ms max_ms / draw.den)

-- `Object.fromEntries` of the headers with their names in lower case.
unfoldable pub lower_keys : List (Text × Text) → List (Text × Text) → List (Text × Text)
lower_keys keys [] = keys
lower_keys keys ((k, v) ∷ rest) = lower_keys (insert (map lower k) v keys) rest

unfoldable pub require_unsubscribe_headers : List (Text × Text) → Result Error (Unit {0})
require_unsubscribe_headers headers = do
  throw_if (not (truthy (lookup (codes "list-unsubscribe") (lower_keys [] headers))))
      missing_list_unsubscribe
  throw_if (not (truthy (lookup (codes "list-unsubscribe-post") (lower_keys [] headers))))
      missing_list_unsubscribe_post

pub record Email : Type 0 where
  pub job_id : Text
  pub idempotency_key : Text
  pub purpose : Text
  pub recipients : List Text
  pub enqueued_at : ℕ
  pub headers : List (Text × Text)
  pub backoff : Backoff

abbrev supported_purpose : Option Purpose → Result Error Purpose
supported_purpose none = err unsupported_purpose
supported_purpose (some p) = ok p

-- The checks on the one class of mail that goes to somebody who did not write in.
abbrev check_purpose : Purpose → Email → Result Error (Unit {0})
check_purpose enrollment_invitation e =
    require_unsubscribe_headers e.headers
    >> throw_if (not (length e.recipients == 1)) not_one_recipient
check_purpose _ e = ok tt

unfoldable pub enqueue_email : Email → Result Error Job
enqueue_email e = do
  throw_if (not (truthy (some e.job_id))) missing_job_id
  throw_if (not (truthy (some e.idempotency_key))) missing_idempotency_key
  purpose ← supported_purpose (lookup e.purpose outbound_purposes)
  throw_if (length e.recipients == 0) no_recipients
  check_purpose purpose e
  throw_if (ltb (given e.backoff.max_attempts default_max_attempts) 1) bad_max_attempts
  at ← timestamp invalid_timestamp e.enqueued_at
  ok (record {
    job_id = e.job_id;
    idempotency_key = e.idempotency_key;
    purpose = purpose;
    recipients = e.recipients;
    headers = e.headers;
    state = pending;
    attempts = 0;
    max_attempts = given e.backoff.max_attempts default_max_attempts;
    base_ms = given e.backoff.base_ms default_base_ms;
    max_ms = given e.backoff.max_ms default_max_ms;
    available_at = at;
    message_id = none;
    sent_at = none;
    last_error = none;
    invitation = none;
    history = (enqueued purpose e.idempotency_key none, at) ∷ [];
  })

abbrev pub claimable : State → Result Error (Unit {0})
claimable sent = err already_sent
claimable dead = err is_dead
claimable sending = err already_sending
claimable _ = ok tt

unfoldable pub begin_send : Job → ℕ → Result Error Job
begin_send j now = do
  claimable j.state
  at ← timestamp invalid_timestamp now
  throw_if (ltb at j.available_at) (not_due j.available_at)
  ok (record j {
    state = sending;
    attempts = j.attempts + 1;
    history = j.history ++ (send_started (j.attempts + 1), at) ∷ [];
  })

abbrev pub sent_as : Option Text → Text → Bool
sent_as none id = false
sent_as (some old) id = same old id

abbrev mark_sent_in : State → Job → Text → ℕ → Result Error Job
mark_sent_in sent j id sent_at =
    if sent_as j.message_id id then ok j else err sent_with_another_message_id
mark_sent_in sending j id sent_at = do
  at ← timestamp invalid_timestamp sent_at
  ok (record j {
    state = sent;
    message_id = some id;
    sent_at = some at;
    last_error = none;
    history = j.history ++ (was_sent id j.attempts, at) ∷ [];
  })
mark_sent_in s j id sent_at = err (wrong_state s)

abbrev sent_text : Option Text → Result Error Text
sent_text none = err missing_message_id
sent_text (some []) = err missing_message_id
sent_text (some (c ∷ cs)) = ok (c ∷ cs)

unfoldable pub mark_sent : Job → Option Text → ℕ → Result Error Job
mark_sent j message_id sent_at = do id ← sent_text message_id; mark_sent_in j.state j id sent_at

-- `new Date(ms).toISOString()`
abbrev pub to_iso : ℕ → Result Error ℕ
to_iso ms = if leb ms max_date then ok ms else err invalid_date

-- Back in line after a failed attempt.
abbrev pub schedule_retry : Job → ℕ → Option Text → Draw → Result Error Job
schedule_retry j when error draw = do
  delay ← backoff_ms j.attempts j.base_ms j.max_ms draw
  available ← to_iso (when + delay)
  ok (record j {
    last_error = error;
    state = retry_wait;
    available_at = available;
    history = j.history ++ (retry_scheduled j.attempts delay available error, when) ∷ [];
  })

abbrev pub bury : Job → Reason → Option Text → ℕ → Job
bury j reason error when = record j {
  last_error = error;
  state = dead;
  history = j.history ++ (died reason, when) ∷ [];
}

abbrev is_sending : State → Bool
is_sending sending = true
is_sending _ = false

abbrev failure : Job → ℕ → Option Text → Bool → Draw → Result Error Job
failure j when error true draw = ok (bury j (permanent_failure error) error when)
failure j when error false draw =
    if leb j.max_attempts j.attempts
    then ok (bury j (attempts_exhausted j.attempts error) error when)
    else schedule_retry j when error draw

unfoldable pub mark_failed : Job → ℕ → Option Text → Bool → Draw → Result Error Job
mark_failed j at error permanent draw = do
  throw_if (not (is_sending j.state)) (wrong_state j.state)
  when ← timestamp invalid_timestamp at
  failure j when error permanent draw

abbrev start_of : Event → ℕ → Option ℕ
start_of (send_started n) at = some at
start_of _ at = none

-- The last SEND_STARTED of the history.
unfoldable pub started_at : List (Event × ℕ) → Option ℕ
started_at [] = none
started_at ((e, at) ∷ rest) = elim (started_at rest) [ some t ↦ some t | none ↦ start_of e at ]

-- `startedAt && at - startedAt < stalledAfterMs`
abbrev pub still_running : Option ℕ → ℕ → ℕ → Bool
still_running none at stalled_after_ms = false
still_running (some t) at stalled_after_ms = ltb at (t + stalled_after_ms)

abbrev pub recover_later : Job → ℕ → Draw → Result Error Job
recover_later j at draw = do
  delay ← backoff_ms j.attempts j.base_ms j.max_ms draw
  available ← to_iso (at + delay)
  ok (record j {
    state = retry_wait;
    available_at = available;
    history = j.history ++ (recovered_stalled_send j.attempts available, at) ∷ [];
  })

abbrev recover : Job → ℕ → Draw → Result Error Job
recover j at draw =
    if leb j.max_attempts j.attempts
    then ok (bury j stalled_attempts_exhausted j.last_error at)
    else recover_later j at draw

abbrev recover_in : State → Job → ℕ → ℕ → Draw → Result Error Job
recover_in sending j now stalled_after_ms draw = do
  at ← timestamp invalid_timestamp now
  if still_running (started_at j.history) at stalled_after_ms then ok j else recover j at draw
recover_in _ j now stalled_after_ms draw = ok j

unfoldable pub recover_stalled_send : Job → ℕ → ℕ → Draw → Result Error Job
recover_stalled_send j now stalled_after_ms draw = recover_in j.state j now stalled_after_ms draw

abbrev is_due_in : State → Job → ℕ → Result Error Bool
is_due_in sent j now = ok false
is_due_in dead j now = ok false
is_due_in sending j now = ok false
is_due_in _ j now = do at ← timestamp invalid_timestamp now; ok (leb j.available_at at)

unfoldable pub is_due : Job → ℕ → Result Error Bool
is_due j now = is_due_in j.state j now

-- `haltOutbound === true`, false by default.
unfoldable pub is_sending_halted : Option Bool → Bool
is_sending_halted halt_outbound = given halt_outbound false
