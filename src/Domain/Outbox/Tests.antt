-- ===== src/Domain/Outbox/Tests.antt =====
-- An outbound email, at concrete inputs.
use yente.Prelude.{
  includes, ◌≡◌, ◌⊎◌, ◌↔◌, refl, Text, true, false, Option, none, some, List, [], ◌∷◌, ok, arith,
  codes, same, Result, lookup, insert,
}
use yente.Domain.Address.{
  normalize_address, lower, is_space, trim_start, trim_end, trim, last_index_of,
}
use yente.Domain.Member
use yente.Domain.Outbox.{
  Job, Email, Error, Draw, Backoff, pending, sent, dead, conversation, enqueued, enqueue_email,
  is_due, begin_send, mark_sent, mark_failed, recover_stalled_send, backoff_ms, backoff_ceiling,
  require_unsubscribe_headers, lower_keys,
}
use yente.Domain.Outbox.Runs.{Call, begins, reports_sent, fails, call, queued, run, Reached-run}
use yente.Domain.Outbox.Attempts.{IsCounted, Reached-IsCounted}
use yente.Domain.Outbox.Timing.{is_due-begin_send, IsBackingOff, failure_backs_off}
use yente.Domain.Outbox.Enrollment.{
  Input, set_of, array_of, normalized, normalize_all, to_set, enrollment_invitation_key,
  invitation_email, invite, enqueue_enrollment_invitation,
}
use yente.Domain.Outbox.Enrollment.Gates.{IsAdmitted, enqueue_enrollment_invitation-IsAdmitted}

abbrev plain_backoff : Backoff
plain_backoff = record { base_ms = some 100; max_ms = some 300; max_attempts = some 2 }

abbrev letter : Email
letter = record {
  job_id = codes "job";
  idempotency_key = codes "key";
  purpose = codes "conversation";
  recipients = codes "ada@example.com" ∷ [];
  enqueued_at = 10;
  headers = [];
  backoff = plain_backoff;
}

abbrev new_job : Job
new_job = record {
  job_id = codes "job";
  idempotency_key = codes "key";
  purpose = conversation;
  recipients = codes "ada@example.com" ∷ [];
  headers = [];
  state = pending;
  attempts = 0;
  max_attempts = 2;
  base_ms = 100;
  max_ms = 300;
  available_at = 10;
  message_id = none;
  sent_at = none;
  last_error = none;
  invitation = none;
  history = (enqueued conversation (codes "key") none, 10) ∷ [];
}

new_job_enqueued : enqueue_email letter ≡ ok new_job
unfolding enqueue_email lookup same
new_job_enqueued = refl

abbrev half : Draw
half = record { num = 1; den = 2 }

abbrev two_attempts : List Call
two_attempts =
    begins 10 ∷ fails 20 none false half ∷ begins 70 ∷ reports_sent (some (codes "<m>")) 80 ∷ []

is_sent_at_last : (run new_job two_attempts).state ≡ sent
unfolding run call begin_send mark_failed mark_sent backoff_ms backoff_ceiling
is_sent_at_last = refl

Reached-IsCounted_example : IsCounted (run new_job two_attempts)
Reached-IsCounted_example =
    Reached-IsCounted (run new_job two_attempts)
      (Reached-run new_job two_attempts (queued new_job_enqueued))

abbrev failed_once : Job
failed_once = run new_job (begins 10 ∷ fails 20 none false half ∷ [])

is_due-begin_send_example :
    (is_due new_job 10 ≡ ok true) ↔ ((k : Job) × (begin_send new_job 10 ≡ ok k))
is_due-begin_send_example = is_due-begin_send new_job 10 (omega arith)

failure_backs_off_example :
    ((mark_failed (run new_job (begins 10 ∷ [])) 20 none false half ≡ ok failed_once)
      → (failed_once.state ≡ dead)
        ⊎ IsBackingOff half (run new_job (begins 10 ∷ [])) failed_once 20)
    × ((recover_stalled_send (run new_job (begins 10 ∷ [])) 20 900 half ≡ ok failed_once)
        → (failed_once ≡ run new_job (begins 10 ∷ []))
          ⊎ ((failed_once.state ≡ dead)
              ⊎ IsBackingOff half (run new_job (begins 10 ∷ [])) failed_once 20))
failure_backs_off_example =
    failure_backs_off (run new_job (begins 10 ∷ [])) failed_once 20 900 none false half
      (omega arith)

abbrev inviter : Member.Member
inviter = record {
  member_id = codes "mem_1";
  address = codes "a@b";
  state = Member.active;
  inbound_established_at = 1;
  qualifications = [];
  stopped_at = none;
  deleted_at = none;
  history = [];
}

abbrev introduced : Input
introduced = record {
  job_id = codes "inv";
  invited_address = codes " C@d ";
  inviting_member = some inviter;
  thread_id = some (codes "t");
  thread_participants = codes "a@b" ∷ codes "c@D" ∷ [];
  already_invited = set_of [];
  suppressed = array_of (codes "x@y" ∷ []);
  headers = (codes "List-Unsubscribe", codes "u") ∷ (codes "List-Unsubscribe-Post", codes "p") ∷ [];
  enqueued_at = 5;
  backoff = plain_backoff;
}

abbrev read_job : Result Error (Option Job) → Job
read_job (ok (some j)) = j
read_job _ = new_job

enqueue_enrollment_invitation-IsAdmitted_example :
    (address : Text) × IsAdmitted introduced address
      (read_job (enqueue_enrollment_invitation introduced))
unfolding enqueue_enrollment_invitation invite normalized normalize_all to_set
    enrollment_invitation_key invitation_email enqueue_email lookup same insert lower_keys
    require_unsubscribe_headers normalize_address is_space trim_start trim_end trim last_index_of
    lower includes Member.can_receive_outbound
enqueue_enrollment_invitation-IsAdmitted_example =
    enqueue_enrollment_invitation-IsAdmitted introduced
      (read_job (enqueue_enrollment_invitation introduced)) refl
