-- ===== src/Store/Outbox/Tests.antt =====
-- The outbox, at concrete inputs.
use yente.Prelude.{Text, ◌≤◌, ◌≡◌, refl, none, some, List, [], ◌∷◌, codes, lookup, same, ok}
use yente.Domain.Outbox.{Job, pending, sent, conversation, enqueued}
use yente.Store.Cells.{Engine, select}
use yente.Store.Cells.Sums.{unique_engine, once, drop_text_of}
use yente.Store.Cells.Order.{IsOrderedFrom, AllRows, slice, oldest_first, put_in_order}
use yente.Store.Outbox.{Row, Letter, claimable, due_rows, due_time}
use yente.Store.Outbox.Line.{IsClaimable}
use yente.Store.Outbox.Turns.{IsServed, claimable_in_turn}
use yente.Store.Outbox.Sent.{enqueues, saves, run, sent_kept}

abbrev hashed : Text → Text
hashed t = 35 ∷ t

abbrev engine : Engine Row (List (Text × Row))
engine = unique_engine

abbrev waiting_job : Job
waiting_job = record {
  job_id = codes "k1";
  idempotency_key = codes "k1";
  purpose = conversation;
  recipients = codes "ada@example.com" ∷ [];
  headers = [];
  state = pending;
  attempts = 0;
  max_attempts = 2;
  base_ms = 100;
  max_ms = 300;
  available_at = 10;
  message_id = none;
  sent_at = none;
  last_error = none;
  invitation = none;
  history = (enqueued conversation (codes "k1") none, 10) ∷ [];
}

abbrev note : Letter
note = record { subject = codes "Hello"; text = codes "Hello."; in_reply_to = none }

abbrev waiting_row : Row
waiting_row = record { job = waiting_job; letter = note; context = none }

abbrev sent_row : Row
sent_row = record waiting_row {
  job = record waiting_job { state = sent; message_id = some (codes "m1"); attempts = 1 };
}

-- A stale copy is saved over a job that was sent, and the job is enqueued again.
sent_kept_example :
    lookup (codes "k1") (
      run engine hashed
        ((codes "k1", sent_row) ∷ [])
        (saves waiting_row ∷ enqueues waiting_row ∷ []))
    ≡ some sent_row
unfolding lookup same
sent_kept_example =
    sent_kept engine hashed ((codes "k1", sent_row) ∷ [])
      (saves waiting_row ∷ enqueues waiting_row ∷ []) (codes "k1") sent_row refl refl

abbrev line : List (Text × Row)
line = (codes "k1", waiting_row) ∷ []

line-claimable : claimable engine hashed line 20 50 ≡ ok line
unfolding claimable select once slice oldest_first put_in_order due_rows lookup same drop_text_of
line-claimable = refl

-- Room for one of two that are due.
abbrev two : List (Text × Row)
two = (codes "k0", record waiting_row { job = record waiting_job { available_at = 15 } }) ∷ line

claimable_in_turn_example :
    (1 ≤ 1)
    × IsOrderedFrom (due_time engine hashed) 0 line
    × AllRows (IsClaimable engine hashed two 20) line
    × IsServed engine hashed 1 20
        (codes "k0")
        (some (record waiting_row { job = record waiting_job { available_at = 15 } }))
        line
unfolding claimable select once slice oldest_first put_in_order due_rows lookup same drop_text_of
claimable_in_turn_example = claimable_in_turn engine hashed two 20 1 line (codes "k0") refl
