-- ===== src/Domain/Outbox/Enrollment.antt =====
-- src/domain/outbox.js: the one message that a person who did not write in may receive, and the gates
-- before it (SPEC v2, 5.4). The answers of the database are arguments, as in the source.
pub mod Gates
use yente.Prelude.{
  Text, ℕ, Bool, not, Option, none, some, List, [], ◌∷◌, ◌++◌, Result, ok, err, ◌>>=◌, ◌>>◌,
  throw_if, includes, codes, same, truthy, if◌then◌else◌,
}
use yente.Domain.Address.{normalize_address}
use yente.Domain.Member.{can_receive_outbound}
use yente.Domain.Member
use yente.Domain.Outbox.{
  Job, Event, Error, Email, Backoff, Invitation, Purpose, enrollment_invitation, enqueued,
  enqueue_email, not_an_address, missing_thread, not_a_participant, missing_member,
  inviter_not_live, self_invitation, require_unsubscribe_headers,
}

-- A `Set` is taken as it is, the addresses of an `Array` are normalised.
pub data Addresses : Type 0 where
  set_of array_of : List Text → Addresses

unfoldable pub normalized : Text → Result Error Text
normalized address = elim (normalize_address address) [ none ↦ err not_an_address | some a ↦ ok a ]

unfoldable pub normalize_all : List Text → Result Error (List Text)
normalize_all [] = ok []
normalize_all (a ∷ rest) = do b ← normalized a; others ← normalize_all rest; ok (b ∷ others)

unfoldable pub to_set : Addresses → Result Error (List Text)
to_set (set_of l) = ok l
to_set (array_of l) = normalize_all l

unfoldable pub enrollment_invitation_key : Text → Result Error Text
enrollment_invitation_key address = do
  normal ← normalized address
  ok (codes "enrollment_invitation:" ++ normal)

pub record Input : Type 0 where
  pub job_id : Text
  pub invited_address : Text
  pub inviting_member : Option Member.Member
  pub thread_id : Option Text
  pub thread_participants : List Text
  pub already_invited : Addresses
  pub suppressed : Addresses
  pub headers : List (Text × Text)
  pub enqueued_at : ℕ
  pub backoff : Backoff

abbrev pub required_thread : Option Text → Result Error Text
required_thread none = err missing_thread
required_thread (some []) = err missing_thread
required_thread (some (c ∷ cs)) = ok (c ∷ cs)

-- `invitingMember?.memberId`
abbrev pub required_member : Option Member.Member → Result Error Member.Member
required_member none = err missing_member
required_member (some m) = if truthy (some m.member_id) then ok m else err missing_member

-- `address && normalizeAddress(address) === invited`
abbrev pub check_not_self : Text → Text → Result Error (Unit {0})
check_not_self [] invited = ok tt
check_not_self (c ∷ cs) invited = do
  own ← normalized (c ∷ cs)
  throw_if (same own invited) self_invitation

-- `history[0].threadId = threadId`
abbrev pub note_thread : Text → List (Event × ℕ) → List (Event × ℕ)
note_thread thread [] = []
note_thread thread ((enqueued p k t, at) ∷ h) = (enqueued p k (some thread), at) ∷ h
note_thread thread ((e, at) ∷ h) = (e, at) ∷ h

unfoldable pub invitation_email : Input → Text → Text → Email
invitation_email i address key = record {
  job_id = i.job_id;
  idempotency_key = key;
  purpose = codes "enrollment_invitation";
  recipients = address ∷ [];
  enqueued_at = i.enqueued_at;
  headers = i.headers;
  backoff = i.backoff;
}

-- From the thread on: the address is neither suppressed nor invited.
unfoldable pub invite : Input → Text → Text → Result Error (Option Job)
invite i address thread = do
  participants ← normalize_all i.thread_participants
  throw_if (not (includes address participants)) not_a_participant
  member ← required_member i.inviting_member
  throw_if (not (can_receive_outbound member)) inviter_not_live
  check_not_self member.address address
  key ← enrollment_invitation_key address
  job ← enqueue_email (invitation_email i address key)
  ok (
      some (record job {
        invitation = some (record { thread_id = thread; invited_by_member_id = member.member_id });
        history = note_thread thread job.history;
      }))

-- `if (test) return null`
abbrev pub unless : Bool → Result Error (Option Job) → Result Error (Option Job)
unless b k = if b then ok none else k

unfoldable pub enqueue_enrollment_invitation : Input → Result Error (Option Job)
enqueue_enrollment_invitation i = do
  address ← normalized i.invited_address
  invited ← to_set i.already_invited
  stopped ← to_set i.suppressed
  thread ← required_thread i.thread_id
  unless (includes address stopped) (unless (includes address invited) (invite i address thread))

-- Silence is a no: there is never a follow-up.
unfoldable pub invitation_follow_up : Option Job
invitation_follow_up = none
