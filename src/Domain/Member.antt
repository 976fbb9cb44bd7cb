-- ===== src/Domain/Member.antt =====
-- src/domain/member.js: the member state machine. Each operation returns the new member; `err` is a
-- throw. Times are milliseconds since 1970.
pub mod Runs
pub mod Suppression
pub mod Qualified
pub mod Invariant
mod Tests
use yente.Prelude.{
  Text, ℕ, Bool, true, false, not, Option, none, some, List, [], ◌∷◌, ◌++◌, Result, ok, err, ◌>>=◌,
  ◌>>◌, throw_if, timestamp, leb, max_date, same, truthy, lookup, insert, if◌then◌else◌,
}
use yente.Domain.Address.{normalize_address}

pub data State : Type 0 where
  new needs_profile interviewing qualified active stopped deleted : State

-- A qualification against one version of a policy.
pub record Record : Type 0 where
  pub policy_version : Text
  pub qualified_at : ℕ

pub data Event : Type 0 where
  member_created intake_began interview_began activated : Event
  evidence_required : Option Text → Option Text → Event
  was_qualified : Text → Text → Event
  was_stopped was_deleted : Option Text → Event

pub record Member : Type 0 where
  pub member_id : Text
  pub address : Text
  pub state : State
  pub inbound_established_at : ℕ
  pub qualifications : List (Text × Record)
  pub stopped_at : Option ℕ
  pub deleted_at : Option ℕ
  pub history : List (Event × ℕ)

pub data Error : Type 0 where
  missing_id missing_address missing_inbound not_an_address invalid_timestamp : Error
  not_qualified is_deleted : Error
  terminal_member : State → Error
  no_transition : State → State → Error

-- TERMINAL_MEMBER_STATES
abbrev pub is_terminal : State → Bool
is_terminal stopped = true
is_terminal deleted = true
is_terminal _ = false

-- `TRANSITIONS[from].includes(to)`
unfoldable pub allows : State → State → Bool
allows new needs_profile = true
allows needs_profile interviewing = true
allows interviewing needs_profile = true
allows interviewing qualified = true
allows qualified active = true
allows qualified needs_profile = true
allows qualified interviewing = true
allows active needs_profile = true
allows active interviewing = true
allows _ _ = false

unfoldable pub advance : Member → State → ℕ → Event → Result Error Member
advance m to at event = do
  throw_if (is_terminal m.state) (terminal_member m.state)
  throw_if (not (allows m.state to)) (no_transition m.state to)
  when ← timestamp invalid_timestamp at
  ok (record m { state = to; history = m.history ++ (event, when) ∷ [] })

pub record Input : Type 0 where
  pub member_id : Option Text
  pub address : Option Text
  pub inbound_established_at : Option ℕ
  pub created_at : ℕ

abbrev required : Option Text → Error → Result Error Text
required none e = err e
required (some []) e = err e
required (some (c ∷ cs)) e = ok (c ∷ cs)

abbrev or_error {ℓ} : {A : Type ℓ} → Option A → Error → Result Error A
or_error none e = err e
or_error (some a) e = ok a

unfoldable pub create_member : Input → Result Error Member
create_member i = do
  id ← required i.member_id missing_id
  address ← required i.address missing_address
  inbound ← or_error i.inbound_established_at missing_inbound
  at ← timestamp invalid_timestamp i.created_at
  normal ← or_error (normalize_address address) not_an_address
  established ← timestamp invalid_timestamp inbound
  ok (record {
    member_id = id;
    address = normal;
    state = new;
    inbound_established_at = established;
    qualifications = [];
    stopped_at = none;
    deleted_at = none;
    history = (member_created, at) ∷ [];
  })

unfoldable pub begin_intake : Member → ℕ → Result Error Member
begin_intake m at = advance m needs_profile at intake_began

unfoldable pub begin_interview : Member → ℕ → Result Error Member
begin_interview m at = advance m interviewing at interview_began

-- `reason ? { reason } : {}`: an empty detail is left out.
abbrev pub detail : Option Text → Option Text
detail none = none
detail (some []) = none
detail (some (c ∷ cs)) = some (c ∷ cs)

unfoldable pub require_more_evidence : Member → ℕ → Option Text → Option Text → Result Error Member
require_more_evidence m at reason policy_id =
    advance m needs_profile at (evidence_required (detail reason) (detail policy_id))

-- The result of a qualification check: the fields that `markQualified` reads.
pub record Qualification : Type 0 where
  pub qualified : Bool
  pub policy_id : Text
  pub policy_version : Text

abbrev with_record : Member → Text → Text → ℕ → Member
with_record m policy version at = record m {
  qualifications =
      insert policy (record { policy_version = version; qualified_at = at }) m.qualifications;
}

unfoldable pub mark_qualified : Member → Qualification → ℕ → Result Error Member
mark_qualified m q at = do
  throw_if (not q.qualified) not_qualified
  next ← advance m qualified at (was_qualified q.policy_id q.policy_version)
  when ← timestamp invalid_timestamp at
  ok (with_record next q.policy_id q.policy_version when)

unfoldable pub activate : Member → ℕ → Result Error Member
activate m at = advance m active at activated

-- The answer for a record: any version, if none is asked for.
abbrev version_matches : Option Record → Option Text → Bool
version_matches none version = false
version_matches (some r) none = true
version_matches (some r) (some v) = same r.policy_version v

unfoldable pub is_qualified_for : Member → Text → Option Text → Bool
is_qualified_for m policy version = version_matches (lookup policy m.qualifications) version

abbrev stop_in : State → Member → ℕ → Option Text → Result Error Member
stop_in stopped m at reason = ok m
stop_in deleted m at reason = err is_deleted
stop_in _ m at reason = do
  when ← timestamp invalid_timestamp at
  ok (record m {
    state = stopped;
    stopped_at = some when;
    history = m.history ++ (was_stopped (detail reason), when) ∷ [];
  })

unfoldable pub stop_member : Member → ℕ → Option Text → Result Error Member
stop_member m at reason = stop_in m.state m at reason

abbrev delete_in : State → Member → ℕ → Option Text → Result Error Member
delete_in deleted m at reason = ok m
delete_in _ m at reason = do
  when ← timestamp invalid_timestamp at
  ok (record m {
    state = deleted;
    deleted_at = some when;
    history = m.history ++ (was_deleted (detail reason), when) ∷ [];
  })

unfoldable pub delete_member : Member → ℕ → Option Text → Result Error Member
delete_member m at reason = delete_in m.state m at reason

unfoldable pub can_receive_outbound : Member → Bool
can_receive_outbound m = not (is_terminal m.state)

abbrev is_active : State → Bool
is_active active = true
is_active _ = false

unfoldable pub is_matchable : Member → Bool
is_matchable m = is_active m.state
