-- ===== src/Store/Records.antt =====
-- src/store/repositories.js: the repositories of messages, members, sources, matches, previews,
-- introductions and reviews. Each keeps one row under its key.
pub mod First
mod Tests
use yente.Prelude.{
  Text, ℕ, Bool, true, false, Option, none, some, List, [], ◌∷◌, ◌++◌, Result, ok, err, ◌>>=◌,
  if◌then◌else◌,
}
use yente.Domain.Member.{Member, State, stopped, deleted}
use yente.Domain.Outbox.{Job, Purpose}
use yente.Domain.Workflow.{Workflow, Decision}
use yente.Store.Cells.{Engine, select}
use yente.Store.Keys.{
  Error, Parts, message_key, member_key, source_key, match_key, preview_key, introduction_key,
  outbox_key,
}

-- A row of a repository that keeps the first one under an id, and whether it was there before.
pub record Kept (Row Db : Type 0) : Type 0 where
  pub db : Db
  pub row : Row
  pub duplicate : Bool

module _ {Row Db : Type 0} (e : Engine Row Db) where
  abbrev pub keep_at : Text → Row → Option Row → Db → Kept Row Db
  keep_at id r none db = record { db = e.put db id r; row = r; duplicate = false }
  keep_at id r (some existing) db = record { db = db; row = existing; duplicate = true }

  unfoldable pub keep_first : Text → Row → Db → Kept Row Db
  keep_first id r db = keep_at id r (e.get db id) db

pub record Inbound : Type 0 where
  pub rfc_message_id : Text
  pub thread_id : Option Text
  pub from : Text
  pub to : List Text
  pub subject : Option Text
  pub received_at : ℕ
  pub raw : Option Text

pub data Message : Type 0 where
  inbound : Inbound → Message
  outbound : Text → Purpose → List Text → Text → ℕ → Message

pub record Source : Type 0 where
  pub member_id : Text
  pub filename : Option Text
  pub mime_type : Option Text
  pub extracted_text : Option Text
  pub received_at : ℕ

pub record StoredMatch : Type 0 where
  pub workflow : Workflow
  pub policy_id : Text
  pub policy_version : Option Text
  pub cycle : Option Text

pub record PreviewDecision : Type 0 where
  pub match_id : Text
  pub recipient_member_id : Text
  pub decision : Decision
  pub decided_at : Option ℕ
  pub message_id : Option Text

pub record Introduction : Type 0 where
  pub match_id : Text
  pub message_id : Option Text
  pub sent_at : Option ℕ

pub data ReviewState : Type 0 where
  is_open is_resolved : ReviewState

pub record Review : Type 0 where
  pub idempotency_key : Text
  pub purpose : Purpose
  pub template : Option Text
  pub failures : List Text
  pub state : ReviewState
  pub recorded_at : ℕ
  pub resolution : Option Text
  pub resolved_at : Option ℕ

pub data ReviewError : Type 0 where
  bad_key : Error → ReviewError
  no_open_review : Text → ReviewError

module _ {Db : Type 0} (e : Engine Message Db) (digest : Text → Text) where
  unfoldable pub record_inbound : Inbound → Db → Result Error (Kept Message Db)
  record_inbound m db = do
    id ← message_key digest m.rfc_message_id
    ok (keep_first e id (inbound m) db)

  unfoldable pub record_outbound : Text → Job → ℕ → Db → Result Error Db
  record_outbound rfc_message_id j sent_at db = do
    id ← message_key digest rfc_message_id
    ok (e.put db id (outbound rfc_message_id j.purpose j.recipients j.idempotency_key sent_at))

  unfoldable pub find_by_rfc_id : Text → Db → Result Error (Option Message)
  find_by_rfc_id rfc_message_id db = do id ← message_key digest rfc_message_id; ok (e.get db id)

module _ {Db : Type 0} (e : Engine Member Db) (digest : Text → Text) where
  unfoldable pub save_member : Member → Db → Result Error Db
  save_member m db = do id ← member_key digest m.address; ok (e.put db id m)

  unfoldable pub find_by_address : Text → Db → Result Error (Option Member)
  find_by_address address db = do id ← member_key digest address; ok (e.get db id)

  abbrev is_stopped : Member → Bool
  is_stopped m = elim m.state [ stopped ↦ true | _ ↦ false ]

  abbrev is_deleted : Member → Bool
  is_deleted m = elim m.state [ deleted ↦ true | _ ↦ false ]

  unfoldable pub addresses_of : List (Text × Member) → List Text
  addresses_of [] = []
  addresses_of (a ∷ rest) = a.1.address ∷ addresses_of rest

  unfoldable pub suppressed_addresses : Db → List Text
  suppressed_addresses db =
      addresses_of (select e db is_stopped (e.ids db) ++ select e db is_deleted (e.ids db))

module _ {Db : Type 0} (e : Engine Source Db) (digest : Text → Text) where
  unfoldable pub save_source : Source → Text → Db → Kept Source Db
  save_source s content db = keep_first e (source_key digest s.member_id content) s db

module _ {Db : Type 0} (e : Engine StoredMatch Db) (digest : Text → Text) where
  unfoldable pub save_match : Workflow → Parts → Db → Result Error Db
  save_match w p db = do
    id ← match_key digest p
    ok (
        e.put db id (record {
          workflow = w;
          policy_id = p.policy_id;
          policy_version = p.policy_version;
          cycle = p.cycle;
        }))

  unfoldable pub find_match : Parts → Db → Result Error (Option StoredMatch)
  find_match p db = do id ← match_key digest p; ok (e.get db id)

module _ {Db : Type 0} (e : Engine PreviewDecision Db) (digest : Text → Text) where
  unfoldable pub save_preview : PreviewDecision → Db → Db
  save_preview p db = e.put db (preview_key digest p.match_id p.recipient_member_id) p

module _ {Db : Type 0} (e : Engine Introduction Db) (digest : Text → Text) where
  unfoldable pub save_introduction : Introduction → Db → Db
  save_introduction i db = e.put db (introduction_key digest i.match_id) i

module _ {Db : Type 0} (e : Engine Review Db) (digest : Text → Text) where
  abbrev pub review_at : Text → Review → Option Review → Db → Kept Review Db
  review_at id r none db = record { db = e.put db id r; row = r; duplicate = false }
  review_at id r (some existing) db = elim existing.state [
    | is_open ↦ record { db = db; row = existing; duplicate = true }
    | is_resolved ↦ record { db = e.put db id r; row = r; duplicate = false }
  ]

  -- The review is given open, as it is written.
  unfoldable pub record_review : Review → Db → Result Error (Kept Review Db)
  record_review r db = do
    id ← outbox_key digest r.idempotency_key
    ok (
        review_at id (record r { state = is_open; resolution = none; resolved_at = none })
          (e.get db id) db)

  abbrev resolve_at : Text → Option Text → ℕ → Option Review → Db → Result ReviewError Db
  resolve_at id resolution at none db = err (no_open_review id)
  resolve_at id resolution at (some r) db = ok (
      e.put db id
        (record r { state = is_resolved; resolution = resolution; resolved_at = some at }))

  unfoldable pub resolve : Text → Option Text → ℕ → Db → Result ReviewError Db
  resolve idempotency_key resolution at db = elim (outbox_key digest idempotency_key) [
    | ok id ↦ resolve_at id resolution at (e.get db id) db
    | err x ↦ err (bad_key x)
  ]

  abbrev is_open_review : Review → Bool
  is_open_review r = elim r.state [ is_open ↦ true | is_resolved ↦ false ]

  unfoldable pub open_reviews : Db → List (Text × Review)
  open_reviews db = select e db is_open_review (e.ids db)
