-- ===== src/Runtime/Desk/Tests.antt =====
-- A desk that queues and drains, at concrete inputs.
use yente.Prelude.{Text, ◌≡◌, ◌⊎◌, refl, none, some, List, [], ◌∷◌, codes, lookup, same, insert, ok}
use yente.Domain.Member.{Member}
use yente.Domain.Outbox.{Job, Email, Draw, pending, conversation, enqueued, sent, enqueue_email}
use yente.Domain.Workflow.{Workflow}
use yente.Domain.Address.{
  trim, trim_start, trim_end, is_space, normalize_address, lower, last_index_of,
}
use yente.Store.Cells.{select}
use yente.Store.Cells.Sums.{unique_engine, unique_distinct, once, drop_text_of}
use yente.Store.Cells.Order.{AllRows, slice, oldest_first, put_in_order}
use yente.Store.Keys.{outbox_key, segment, all_safe, member_key, message_key, drop_close}
use yente.Store.Outbox.{Row, Letter, claimable, due_rows, enqueue}
use yente.Runtime.Desk.{
  Stores, Delivery, Introduced, Reply, accepts, throws, Desk, Error, drain_outbox, queue, all_live,
}
use yente.Runtime.Desk.Copies.{copies}
use yente.Runtime.Desk.Events.{Event, queues, drains, run, happen, taken_once}
use yente.Runtime.Desk.Delivered.{IsAccepted, IsSentAt, drain_outbox-sends}

abbrev hashed : Text → Text
hashed t = 35 ∷ t

abbrev waiting_job : Job
waiting_job = record {
  job_id = codes "k1";
  idempotency_key = codes "k1";
  purpose = conversation;
  recipients = codes "ada@example.com" ∷ [];
  headers = [];
  state = pending;
  attempts = 0;
  max_attempts = 2;
  base_ms = 100;
  max_ms = 300;
  available_at = 10;
  message_id = none;
  sent_at = none;
  last_error = none;
  invitation = none;
  history = (enqueued conversation (codes "k1") none, 10) ∷ [];
}

abbrev note : Letter
note = record { subject = codes "Hello"; text = codes "Hello."; in_reply_to = none }

abbrev waiting_row : Row
waiting_row = record { job = waiting_job; letter = note; context = none }

abbrev Rows : Type 0 → Type 0
Rows A = List (Text × A)

abbrev stores : Stores (Rows Row) (Rows Member) (Rows Workflow) (Rows Delivery) (Rows Introduced)
stores = record {
  outbox = unique_engine;
  people = unique_engine;
  matches = unique_engine;
  messages = unique_engine;
  introductions = unique_engine;
}

abbrev wording : Error → Text
wording e = codes "error"

abbrev new_desk : Desk stores hashed wording
new_desk = record {
  outbox = [];
  books = record { matches = []; messages = []; introductions = [] };
  taken = [];
  sent = 0;
  failed = none;
}

abbrev email : Email
email = record {
  job_id = codes "k1";
  idempotency_key = codes "k1";
  purpose = codes "conversation";
  recipients = codes "ada@example.com" ∷ [];
  enqueued_at = 10;
  headers = [];
  backoff = record { base_ms = some 100; max_ms = some 300; max_attempts = some 2 };
}

abbrev half : Draw
half = record { num = 1; den = 2 }

-- A transport that takes everything, and one that is down.
abbrev working : Row → Reply
working r = record { answer = accepts (some (codes "m1")); draw = half }

abbrev down : Row → Reply
down r = record { answer = throws (codes "timeout"); draw = half }

abbrev day : List (Event (Rows Member))
day =
    queues email note none []
    ∷ drains none 20 down
    ∷ drains none 80 working
    ∷ drains none 90 working
    ∷ []

taken_once_example :
    (copies (codes "k1") (run stores hashed wording new_desk day).taken ≡ 0)
    ⊎ ((copies (codes "k1") (run stores hashed wording new_desk day).taken ≡ 1)
        × ((r : Row) × (lookup (codes "k1") (run stores hashed wording new_desk day).outbox
              ≡ some r)
            × (r.job.state ≡ sent)))
unfolding lookup
taken_once_example =
    taken_once stores hashed wording unique_distinct day new_desk (λ k. refl) refl (codes "k1")

abbrev morning : List (Event (Rows Member))
morning = queues email note none [] ∷ []

abbrev claimed_rows : Rows Row
claimed_rows = (codes "k1", waiting_row) ∷ []

queued_is_claimable :
    claimable stores.outbox hashed (run stores hashed wording new_desk morning).outbox 20 50
    ≡ ok claimed_rows
unfolding run happen queue all_live member_key segment all_safe normalize_address trim trim_start
    trim_end is_space lower last_index_of enqueue_email enqueue outbox_key claimable select once
    drop_text_of slice oldest_first put_in_order due_rows lookup insert same
queued_is_claimable = refl

claimed_rows-IsAccepted : AllRows (IsAccepted stores hashed wording 20 working) claimed_rows
unfolding AllRows message_key segment all_safe drop_close trim trim_start trim_end is_space
claimed_rows-IsAccepted = (
  record {
    alone = refl;
    first = 109;
    others = codes "1";
    accepted = λ j h. refl;
    message = codes "m1";
    kept_under = refl;
  },
  tt,
)

drain_outbox-sends_example :
    ((drain_outbox stores hashed wording none 20 working
        (run stores hashed wording new_desk morning)).failed
      ≡ none)
    × ((drain_outbox stores hashed wording none 20 working
          (run stores hashed wording new_desk morning)).sent
        ≡ 1)
    × AllRows
        (λ a.
          IsSentAt stores hashed wording
            (drain_outbox stores hashed wording none 20 working
              (run stores hashed wording new_desk morning))
            a.0)
        claimed_rows
unfolding lookup
drain_outbox-sends_example =
    drain_outbox-sends stores hashed wording unique_distinct morning new_desk 20 working
      claimed_rows (λ k. refl) refl queued_is_claimable claimed_rows-IsAccepted
