-- ===== src/Domain/Outbox/Enrollment/Gates.antt =====
-- What must hold for an enrollment invitation to exist.
use yente.Prelude.{
  Text, Bool, true, false, not, ◌≡◌, refl, Option, some, List, [], ◌∷◌, ◌++◌, Result, ok, includes,
  codes, same, arith, bind_ok, passed_test, lookup,
}
use yente.Domain.Address.{normalize_address_idem}
use yente.Domain.Member.{can_receive_outbound}
use yente.Domain.Member
use yente.Domain.Outbox.{
  Job, Error, outbound_purposes, enrollment_invitation, enqueue_email, require_unsubscribe_headers,
  inviter_not_live, not_a_participant,
}
use yente.Domain.Outbox.Enrollment.{
  Input, normalized, normalize_all, to_set, enrollment_invitation_key, invitation_email, invite,
  unless, enqueue_enrollment_invitation, required_thread, required_member, check_not_self,
}

normalized_idem : (a : Text) {b : Text} → normalized a ≡ ok b → normalized b ≡ ok b
unfolding normalized
normalized_idem a {b} e = ground (arith, normalize_address_idem a {b = b})

key_of_normal :
    (a : Text)
    → normalized a ≡ ok a
    → enrollment_invitation_key a ≡ ok (codes "enrollment_invitation:" ++ a)
unfolding enrollment_invitation_key
key_of_normal a e = rw e

-- The gates of one invitation to `address`.
pub record IsAdmitted (i : Input) (address : Text) (job : Job) : Type 0 where
  pub stopped : List Text
  pub invited : List Text
  pub participants : List Text
  pub inviter : Member.Member
  pub normal : normalized i.invited_address ≡ ok address
  pub reads_suppressed : to_set i.suppressed ≡ ok stopped
  pub not_suppressed : includes address stopped ≡ false
  pub reads_invited : to_set i.already_invited ≡ ok invited
  pub not_invited : includes address invited ≡ false
  pub reads_participants : normalize_all i.thread_participants ≡ ok participants
  pub on_thread : includes address participants ≡ true
  pub has_inviter : i.inviting_member ≡ some inviter
  pub inviter_live : can_receive_outbound inviter ≡ true
  pub unsubscribable : require_unsubscribe_headers job.headers ≡ ok tt
  pub one_recipient : job.recipients ≡ address ∷ []
  pub key : job.idempotency_key ≡ codes "enrollment_invitation:" ++ address
  pub purpose : job.purpose ≡ enrollment_invitation

not-true : (b : Bool) → not b ≡ false → b ≡ true
not-true b e = ground arith

member_of : (o : Option Member.Member) (m : Member.Member) → required_member o ≡ ok m → o ≡ some m
member_of o m e = ground arith

is_purpose : lookup (codes "enrollment_invitation") outbound_purposes ≡ some enrollment_invitation
unfolding lookup same
is_purpose = refl

email_facts :
    (i : Input) (address key : Text) (job : Job)
    → enqueue_email (invitation_email i address key) ≡ ok job
    → (require_unsubscribe_headers job.headers ≡ ok tt)
      × (job.recipients ≡ address ∷ [])
      × (job.idempotency_key ≡ key)
      × (job.purpose ≡ enrollment_invitation)
unfolding enqueue_email invitation_email
email_facts i address key job e = ground (arith, is_purpose)

-- What `invite` has checked when it returns a job.
record IsInvited (i : Input) (address : Text) (job : Job) : Type 0 where
  participants : List Text
  inviter : Member.Member
  reads_participants : normalize_all i.thread_participants ≡ ok participants
  on_thread : includes address participants ≡ true
  has_inviter : i.inviting_member ≡ some inviter
  inviter_live : can_receive_outbound inviter ≡ true
  unsubscribable : require_unsubscribe_headers job.headers ≡ ok tt
  one_recipient : job.recipients ≡ address ∷ []
  key : enrollment_invitation_key address ≡ ok job.idempotency_key
  purpose : job.purpose ≡ enrollment_invitation

invite-IsInvited :
    (i : Input) (address thread : Text) (job : Job)
    → invite i address thread ≡ ok (some job)
    → IsInvited i address job
unfolding invite
invite-IsInvited i address thread job e =
    bind_ok (normalize_all i.thread_participants) _ e λ ps reads e₁.
      passed_test (not (includes address ps)) not_a_participant _ e₁ λ on e₂.
        bind_ok (required_member i.inviting_member) _ e₂ λ m has e₃.
          passed_test (not (can_receive_outbound m)) inviter_not_live _ e₃ λ live e₄.
            bind_ok (check_not_self m.address address) _ e₄ λ t other e₅.
              bind_ok (enrollment_invitation_key address) _ e₅ λ key is_key e₆.
                bind_ok (enqueue_email (invitation_email i address key)) _ e₆ λ email sends e₇.
                  let facts = email_facts i address key email sends in
                  record {
                    participants = ps;
                    inviter = m;
                    reads_participants = reads;
                    on_thread = not-true _ on;
                    has_inviter = member_of _ m has;
                    inviter_live = not-true _ live;
                    unsubscribable = ground arith;
                    one_recipient = ground arith;
                    key = ground arith;
                    purpose = ground arith;
                  }

went_on :
    {P : Type 0} (b : Bool) (k : Result Error (Option Job)) (job : Job)
    → unless b k ≡ ok (some job)
    → (b ≡ false → k ≡ ok (some job) → P)
    → P
went_on true k job e f = absurd (ground arith)
went_on false k job e f = f refl e

key_of :
    (raw address : Text) (key : Text)
    → normalized raw ≡ ok address
    → enrollment_invitation_key address ≡ ok key
    → key ≡ codes "enrollment_invitation:" ++ address
key_of raw address key normal e =
    ground (arith, key_of_normal address, normalized_idem raw {b = address})

-- An enrollment invitation exists only for an address that is not suppressed, was never invited and is
-- on the thread; only on behalf of a member who may be written to; to that address alone, with the
-- headers to unsubscribe, under a key that the normal form of the address determines.
pub enqueue_enrollment_invitation-IsAdmitted :
    (i : Input) (job : Job)
    → enqueue_enrollment_invitation i ≡ ok (some job)
    → (address : Text) × IsAdmitted i address job
unfolding enqueue_enrollment_invitation
enqueue_enrollment_invitation-IsAdmitted i job e =
    bind_ok (normalized i.invited_address) _ e λ address normal e₁.
      bind_ok (to_set i.already_invited) _ e₁ λ invited reads_invited e₂.
        bind_ok (to_set i.suppressed) _ e₂ λ stopped reads_stopped e₃.
          bind_ok (required_thread i.thread_id) _ e₃ λ thread has e₄.
            went_on (includes address stopped) _ job e₄ λ free e₅.
              went_on (includes address invited) _ job e₅ λ first e₆.
                let x = invite-IsInvited i address thread job e₆ in
                (
                  address,
                  record {
                    stopped = stopped;
                    invited = invited;
                    participants = x.participants;
                    inviter = x.inviter;
                    normal = normal;
                    reads_suppressed = reads_stopped;
                    not_suppressed = free;
                    reads_invited = reads_invited;
                    not_invited = first;
                    reads_participants = x.reads_participants;
                    on_thread = x.on_thread;
                    has_inviter = x.has_inviter;
                    inviter_live = x.inviter_live;
                    unsubscribable = x.unsubscribable;
                    one_recipient = x.one_recipient;
                    key = key_of i.invited_address address job.idempotency_key normal x.key;
                    purpose = x.purpose;
                  },
                )
