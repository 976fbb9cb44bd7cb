-- ===== src/Runtime/Desk.antt =====
-- src/runtime/yente.js: how a letter gets into the outbox and out of it, `queue`, `drainOutbox` and
-- `recordDelivery`. The transport is an argument, which answers for the row that it is given, as is the
-- wording of an error. The loop of a drain awaits only the transport; no other call comes in between.
-- `taken` is not in the source: the ids of the rows whose letters the transport accepted with a message
-- id. Without one, which its interface rules out, the source counts the attempt as failed.
pub mod Copies
pub mod Sending
pub mod Delivering
pub mod Once
pub mod Events
pub mod Delivered
mod Tests
use yente.Prelude.{
  Text, ℕ, suc, ◌+◌, Bool, true, false, not, ◌&&◌, ◌||◌, Option, none, some, List, [], ◌∷◌, codes,
  leb, ltb, length, truthy, Result, ok, err, ◌>>=◌, if◌then◌else◌, ◌==◌,
}
use yente.Domain.Member.{Member, can_receive_outbound}
use yente.Domain.Outbox.{
  Job, Purpose, Draw, Email, private_match_preview, joint_introduction, enqueue_email, begin_send,
  mark_sent, mark_failed, is_sending_halted,
}
use yente.Domain.Outbox
use yente.Domain.Workflow.{Workflow, State, introduction_queued, mark_preview_sent, mark_introduced}
use yente.Domain.Workflow
use yente.Store.Cells.{Engine}
use yente.Store.Keys.{message_key, introduction_key, member_key}
use yente.Store.Keys
use yente.Store.Outbox.{Row, Letter, Context, Enqueued, enqueue, save, claimable}
use yente.Store.Outbox as Rows

-- The delivery record of a letter, and an introduction that was made.
pub record Delivery : Type 0 where
  pub purpose : Purpose
  pub recipients : List Text
  pub idempotency_key : Text
  pub sent_at : ℕ

pub record Introduced : Type 0 where
  pub match_id : Text
  pub message_id : Option Text
  pub sent_at : ℕ

-- The collections, and what is promised of each.
pub record Stores (O P W M I : Type 0) : Type 0 where
  pub outbox : Engine Row O
  pub people : Engine Member P
  pub matches : Engine Workflow W
  pub messages : Engine Delivery M
  pub introductions : Engine Introduced I

pub data Error : Type 0 where
  bad_job : Outbox.Error → Error
  not_saved : Rows.Error → Error
  bad_key : Keys.Error → Error
  bad_match : Workflow.Error → Error

pub data Answer : Type 0 where
  accepts : Option Text → Answer
  throws : Text → Answer

-- What the transport does with a letter, and the fraction that a backoff would draw.
pub record Reply : Type 0 where
  pub answer : Answer
  pub draw : Draw

abbrev is_digit : ℕ → Bool
is_digit c = leb 48 c && leb c 57

abbrev pub is_code : Text → Bool
is_code (a ∷ b ∷ c ∷ cs) = a == 53 && (is_digit b && is_digit c)
is_code _ = false

abbrev is_dotted : Text → Bool
is_dotted (a ∷ b ∷ c ∷ d ∷ f ∷ cs) = a == 53 && (b == 46 && (is_digit c && (d == 46 && is_digit f)))
is_dotted _ = false

unfoldable pub has_dotted : Text → Bool
has_dotted [] = false
has_dotted (c ∷ cs) = is_dotted (c ∷ cs) || has_dotted cs

-- `/^5\d\d|5\.\d\.\d/.test(error.message)`
abbrev pub is_permanent : Text → Bool
is_permanent message = is_code message || has_dotted message

module _ {O P W M I : Type 0} (st : Stores O P W M I) (digest : Text → Text)
    (wording : Error → Text) where
  pub record Books : Type 0 where
    pub matches : W
    pub messages : M
    pub introductions : I

  -- The books afterwards, and the error with which it ended, if any.
  pub record Booked : Type 0 where
    pub books : Books
    pub failed : Option Error

  abbrev booked : Books → Booked
  booked b = record { books = b; failed = none }

  abbrev unbooked : Books → Error → Booked
  unbooked b e = record { books = b; failed = some e }

  abbrev write_match : Text → Result Workflow.Error Workflow → Books → Booked
  write_match id (ok w) b = booked (record b { matches = st.matches.put b.matches id w })
  write_match id (err e) b = unbooked b (bad_match e)

  abbrev write_introduction :
      Text → Option Text → ℕ → Result Workflow.Error Workflow → Books → Booked
  write_introduction id message now (ok w) b = booked (record b {
    matches = st.matches.put b.matches id w;
    introductions =
        st.introductions.put b.introductions (introduction_key digest id)
          (record { match_id = id; message_id = message; sent_at = now });
  })
  write_introduction id message now (err e) b = unbooked b (bad_match e)

  abbrev is_queued : State → Bool
  is_queued introduction_queued = true
  is_queued _ = false

  -- The absent recipient of a context reads as the property `undefined`.
  abbrev recipient_of : Option Text → Text
  recipient_of none = codes "undefined"
  recipient_of (some t) = t

  abbrev note_on_match : Purpose → Job → Context → Option Workflow → ℕ → Books → Booked
  note_on_match purpose j c none now b = booked b
  note_on_match private_match_preview j c (some w) now b =
      write_match c.match_id (mark_preview_sent w (recipient_of c.recipient) j.message_id now) b
  note_on_match joint_introduction j c (some w) now b =
      if is_queued w.state
      then write_introduction c.match_id j.message_id now (mark_introduced w j.message_id now) b
      else booked b
  note_on_match _ j c (some w) now b = booked b

  -- `if (!context?.matchId) return`
  abbrev pub note_in_context : Option Context → Job → ℕ → Books → Booked
  note_in_context none j now b = booked b
  note_in_context (some c) j now b =
      if truthy (some c.match_id)
      then note_on_match j.purpose j c (st.matches.get b.matches c.match_id) now b
      else booked b

  abbrev delivery_of : Job → ℕ → Delivery
  delivery_of j now = record {
    purpose = j.purpose;
    recipients = j.recipients;
    idempotency_key = j.idempotency_key;
    sent_at = now;
  }

  abbrev pub after_message : Result Keys.Error Text → Row → ℕ → Books → Booked
  after_message (err e) r now b = unbooked b (bad_key e)
  after_message (ok id) r now b =
      note_in_context r.context r.job now
        (record b { messages = st.messages.put b.messages id (delivery_of r.job now) })

  unfoldable pub record_delivery : Row → ℕ → Books → Booked
  record_delivery r now b =
      after_message (message_key digest (recipient_of r.job.message_id)) r now b

  -- The outbox and the books; the keys of the letters that the transport took, in order; how many were
  -- sent in this drain; the error with which it ended, if any.
  pub record Desk : Type 0 where
    pub outbox : O
    pub books : Books
    pub taken : List Text
    pub sent : ℕ
    pub failed : Option Error

  abbrev pub save_over : Row → Desk → Result Rows.Error O
  save_over r s = save st.outbox digest r s.outbox

  abbrev pub after_save : Result Rows.Error O → Desk → Desk
  after_save (ok db) s = record s { outbox = db }
  after_save (err e) s = record s { failed = some (not_saved e) }

  abbrev pub after_failure : Row → Result Outbox.Error Job → Desk → Desk
  after_failure r (ok j) s = after_save (save_over (record r { job = j }) s) s
  after_failure r (err e) s = record s { failed = some (bad_job e) }

  -- The `catch` of a drain.
  abbrev pub fail_one : Row → ℕ → Draw → Text → Desk → Desk
  fail_one r now draw message s =
      after_failure r (mark_failed r.job now (some message) (is_permanent message) draw) s

  abbrev pub after_booking : Row → ℕ → Draw → Books → Option Error → Desk → Desk
  after_booking r now draw b none s = record s { books = b; sent = suc s.sent }
  after_booking r now draw b (some e) s = fail_one r now draw (wording e) (record s { books = b })

  abbrev pub after_delivery : Row → Row → ℕ → Draw → Result Rows.Error O → Desk → Desk
  after_delivery r d now draw (err e) s = fail_one r now draw (wording (not_saved e)) s
  after_delivery r d now draw (ok db) s =
      let b = record_delivery d now s.books in
      after_booking r now draw b.books b.failed (record s { outbox = db })

  abbrev pub after_sending : Row → ℕ → Draw → Result Outbox.Error Job → Desk → Desk
  after_sending r now draw (err e) s = fail_one r now draw (wording (bad_job e)) s
  after_sending r now draw (ok j) s =
      after_delivery r (record r { job = j }) now draw (save_over (record r { job = j }) s) s

  -- What follows the call of the transport for a row that is claimed.
  abbrev pub settle : Text → Row → ℕ → Draw → Answer → Desk → Desk
  settle id r now draw (throws message) s = fail_one r now draw message s
  settle id r now draw (accepts message_id) s =
      after_sending r now draw (mark_sent r.job message_id now)
        (if truthy message_id then record s { taken = id ∷ s.taken } else s)

  abbrev pub after_claim : Text → Row → ℕ → (Row → Reply) → Result Rows.Error O → Desk → Desk
  after_claim id r now transport (err e) s = record s { failed = some (not_saved e) }
  after_claim id r now transport (ok db) s =
      settle id r now (transport r).draw (transport r).answer (record s { outbox = db })

  abbrev pub send_claimed : Text → Row → ℕ → (Row → Reply) → Result Outbox.Error Job → Desk → Desk
  send_claimed id r now transport (err e) s = record s { failed = some (bad_job e) }
  send_claimed id r now transport (ok j) s =
      after_claim id (record r { job = j }) now transport (save_over (record r { job = j }) s) s

  unfoldable pub send_one : Text → Row → ℕ → (Row → Reply) → Desk → Desk
  send_one id r now transport s = send_claimed id r now transport (begin_send r.job now) s

  -- The loop over the rows that were claimable at its start; an error ends it.
  unfoldable pub send_all : List (Text × Row) → ℕ → (Row → Reply) → Desk → Desk
  send_all [] now transport s = s
  send_all ((id, r) ∷ rest) now transport s = elim s.failed [
    | some e ↦ s
    | none ↦ send_all rest now transport (send_one id r now transport s)
  ]

  abbrev pub drain_rows : Result Rows.Error (List (Text × Row)) → ℕ → (Row → Reply) → Desk → Desk
  drain_rows (err e) now transport s = record s { failed = some (not_saved e) }
  drain_rows (ok rows) now transport s = send_all rows now transport s

  abbrev pub count_only : Result Rows.Error (List (Text × Row)) → Desk → Desk
  count_only (err e) s = record s { failed = some (not_saved e) }
  count_only (ok rows) s = s

  -- At most 50 rows; halted, it only counts them.
  unfoldable pub drain_outbox : Option Bool → ℕ → (Row → Reply) → Desk → Desk
  drain_outbox halt_outbound now transport s =
      let fresh = record s { sent = 0; failed = none } in
      if is_sending_halted halt_outbound
      then count_only (claimable st.outbox digest s.outbox now 50) fresh
      else drain_rows (claimable st.outbox digest s.outbox now 50) now transport fresh

  -- `canReceiveOutbound(repositories.members.findByAddress(address) ?? NEW)`
  abbrev may_receive : Option Member → Bool
  may_receive none = true
  may_receive (some m) = can_receive_outbound m

  unfoldable pub all_live : P → List Text → Result Error Bool
  all_live people [] = ok true
  all_live people (a ∷ rest) =
      let others = all_live people rest in
      elim (member_key digest a) [
        | err e ↦ err (bad_key e)
        | ok id ↦ others >>= λ more. ok (may_receive (st.people.get people id) && more)
      ]

  abbrev stored_new : Result Rows.Error (Enqueued st.outbox digest) → O → Result Error (O × Bool)
  stored_new (err e) db = err (not_saved e)
  stored_new (ok x) db = ok (x.db, not x.duplicate)

  abbrev store_letter :
      Result Outbox.Error Job → Letter → Option Context → O → Result Error (O × Bool)
  store_letter (err e) letter context db = err (bad_job e)
  store_letter (ok j) letter context db =
      stored_new
        (enqueue st.outbox digest (record { job = j; letter = letter; context = context }) db) db

  -- Whether a letter was queued, and the outbox afterwards.
  unfoldable pub queue : Email → Letter → Option Context → P → O → Result Error (O × Bool)
  queue email letter context people db = do
    live ← all_live people email.recipients
    if live then store_letter (enqueue_email email) letter context db else ok (db, false)
