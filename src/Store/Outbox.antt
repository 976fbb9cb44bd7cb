-- ===== src/Store/Outbox.antt =====
-- src/store/repositories.js: OutboxRepository, the jobs of src/domain/outbox.js with the letter and the
-- context that travel with each.
pub mod Sent
pub mod Line
pub mod Turns
mod Tests
use yente.Prelude.{
  Text, ℕ, Bool, true, false, not, ◌&&◌, Option, none, some, List, [], ◌∷◌, ◌++◌, leb, same, Result,
  ok, err, ◌>>=◌, if◌then◌else◌, max_date,
}
use yente.Domain.Outbox.{
  Job, State, Purpose, pending, sending, sent, retry_wait, dead, enrollment_invitation, sent_as,
}
use yente.Store.Keys.{outbox_key}
use yente.Store.Keys
use yente.Store.Cells.{Engine, select}
use yente.Store.Cells.Order.{slice, oldest_first}

pub record Letter : Type 0 where
  pub subject : Text
  pub text : Text
  pub in_reply_to : Option Text

pub record Context : Type 0 where
  pub match_id : Text
  pub recipient : Option Text

pub record Row : Type 0 where
  pub job : Job
  pub letter : Letter
  pub context : Option Context

pub data Error : Type 0 where
  bad_key : Keys.Error → Error
  out_of_sent : State → Error
  delivered_as_another invalid_timestamp : Error

abbrev pub is_pending : Row → Bool
is_pending r = elim r.job.state [ pending ↦ true | _ ↦ false ]

abbrev pub is_waiting : Row → Bool
is_waiting r = elim r.job.state [ retry_wait ↦ true | _ ↦ false ]

abbrev pub is_sending : Row → Bool
is_sending r = elim r.job.state [ sending ↦ true | _ ↦ false ]

abbrev pub is_sent : State → Bool
is_sent sent = true
is_sent _ = false

abbrev pub is_invitation : Row → Bool
is_invitation r = elim r.job.purpose [ enrollment_invitation ↦ true | _ ↦ false ]

-- `stored.messageId !== job.messageId`
abbrev pub same_id : Option Text → Option Text → Bool
same_id none none = true
same_id (some a) (some b) = same a b
same_id _ _ = false

-- The rows of a query that are due.
unfoldable pub due_rows : ℕ → List (Text × Row) → List (Text × Row)
due_rows now [] = []
due_rows now (a ∷ rest) =
    let others = due_rows now rest in if leb a.1.job.available_at now then a ∷ others else others

unfoldable pub all_recipients : List (Text × Row) → List Text
all_recipients [] = []
all_recipients (a ∷ rest) = a.1.job.recipients ++ all_recipients rest

module _ {Db : Type 0} (e : Engine Row Db) (digest : Text → Text) where
  abbrev pub key_of : Row → Result Error Text
  key_of r = elim (outbox_key digest r.job.idempotency_key) [
    | ok id ↦ ok id
    | err x ↦ err (bad_key x)
  ]

  -- What `enqueue` returns, and the collection afterwards.
  pub record Enqueued : Type 0 where
    pub db : Db
    pub row : Row
    pub duplicate : Bool

  abbrev pub enqueue_at : Text → Row → Option Row → Db → Enqueued
  enqueue_at id r none db = record { db = e.put db id r; row = r; duplicate = false }
  enqueue_at id r (some existing) db = record { db = db; row = existing; duplicate = true }

  unfoldable pub enqueue : Row → Db → Result Error Enqueued
  enqueue r db = do id ← key_of r; ok (enqueue_at id r (e.get db id) db)

  -- A job that was sent stays sent, under its message id.
  abbrev pub over_sent : Row → Row → Db → Result Error Db
  over_sent stored r db =
      if not (is_sent r.job.state)
      then err (out_of_sent r.job.state)
      else (if same_id stored.job.message_id r.job.message_id
          then ok db
          else err delivered_as_another)

  abbrev pub save_at : Text → Row → Option Row → Db → Result Error Db
  save_at id r none db = ok (e.put db id r)
  save_at id r (some stored) db =
      if is_sent stored.job.state then over_sent stored r db else ok (e.put db id r)

  unfoldable pub save : Row → Db → Result Error Db
  save r db = do id ← key_of r; save_at id r (e.get db id) db

  unfoldable pub find : Text → Db → Result Keys.Error (Option Row)
  find idempotency_key db = do id ← outbox_key digest idempotency_key; ok (e.get db id)

  abbrev pub due_time : Row → ℕ
  due_time r = r.job.available_at

  abbrev pub due_now : Db → ℕ → List (Text × Row)
  due_now db now =
      due_rows now (select e db is_pending (e.ids db) ++ select e db is_waiting (e.ids db))

  unfoldable pub claimable : Db → ℕ → ℕ → Result Error (List (Text × Row))
  claimable db now limit =
      if leb now max_date
      then ok (slice limit (oldest_first due_time (due_now db now)))
      else err invalid_timestamp

  unfoldable pub stalled : Db → List (Text × Row)
  stalled db = select e db is_sending (e.ids db)

  unfoldable pub invited_addresses : Db → List Text
  invited_addresses db = all_recipients (select e db is_invitation (e.ids db))
