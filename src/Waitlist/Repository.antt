-- ===== src/Waitlist/Repository.antt =====
-- src/waitlist/repository.js: the subscribers of the founding network. The hash that makes an id, the
-- uuid of an event, the clock and the hash that the engine gives an event are arguments. Letters are
-- ASCII; `subscribe` and `claimInbound` are synchronous, so a count and the write after it are one step.
pub mod Bound
mod Tests
use yente.Prelude.{
  Text, ℕ, zero, suc, ◌+◌, ◌-◌, Bool, true, false, not, ◌&&◌, ◌||◌, Option, none, some, is_some,
  List, [], ◌∷◌, ◌++◌, codes, leb, ltb, same, includes, map, length, if◌then◌else◌, ◌==◌, min, max,
  Result, ok, err, ◌>>=◌, ◌>>◌, throw_if,
}
use yente.Domain.Address.{lower, trim, is_space}
use yente.Graph.Consent.{collapse, contains}
use yente.Store.Cells.{Engine}
use yente.Waitlist.Capacity.{
  cohort_limit, counted_subscriber_states, Subscriber, Snapshot, assert_cohort,
  build_capacity_snapshot,
}
use yente.Waitlist.Capacity

pub record Record : Type 0 where
  pub email : Text
  pub name : Text
  pub cohort : Text
  pub intent : Text
  pub status : Text
  pub source : Text
  pub consent_version : Text
  pub inbound_established_at : ℕ
  pub created_at : ℕ
  pub updated_at : ℕ
  pub revision : ℕ
  pub caused_by_event_id : Text
  pub caused_by_event_hash : Text

pub data EventType : Type 0 where
  waitlist_subscribed waitlist_subscription_updated founding_seat_claimed_by_email : EventType

pub record Event : Type 0 where
  pub event_type : EventType
  pub subscriber_id : Text
  pub cohort : Text
  pub source : Text
  pub consent_version : Text
  pub occurred_at : ℕ

pub data Error : Type 0 where
  invalid_email invalid_name invalid_intent consent_required : Error
  unknown_cohort capacity_full : Text → Error

-- EMAIL_PATTERN: no white space, one `@` after a character, and in the part behind it a dot that is
-- neither its first nor its last character.
unfoldable pub is_plain : Text → Bool
is_plain [] = true
is_plain (c ∷ cs) = not (is_space c) && (not (c == 64) && is_plain cs)

abbrev is_some_plain : Text → Bool
is_some_plain [] = false
is_some_plain (c ∷ cs) = is_plain (c ∷ cs)

unfoldable pub matches_domain : Bool → Text → Bool
matches_domain begun [] = false
matches_domain begun (c ∷ cs) =
    not (is_space c || c == 64)
    && ((begun && (c == 46 && is_some_plain cs)) || matches_domain true cs)

unfoldable pub matches_email : Bool → Text → Bool
matches_email begun [] = false
matches_email begun (c ∷ cs) =
    if c == 64 then begun && matches_domain false cs else not (is_space c) && matches_email true cs

unfoldable pub normalize_email : Text → Result Error Text
normalize_email value =
    let email = map lower (trim value) in
    if ltb 254 (length email) || not (matches_email false email)
    then err invalid_email
    else ok email

unfoldable pub normalize_name : Text → Result Error Text
normalize_name value =
    let name = collapse false (trim value) in
    if length name == 0 || ltb 120 (length name) then err invalid_name else ok name

unfoldable pub normalize_intent : Text → Result Error Text
normalize_intent value =
    let intent = collapse false (trim value) in
    if ltb 500 (length intent) then err invalid_intent else ok intent

abbrev pub check_cohort : Text → Result Error Text
check_cohort value = elim (assert_cohort value) [ ok c ↦ ok c | err e ↦ err (unknown_cohort value) ]

pub record Subscription : Type 0 where
  pub email : Text
  pub name : Text
  pub intent : Text
  pub cohort : Text
  pub consent : Bool

-- What a call draws from outside: the time, and an id and a hash for its event.
pub record Draw : Type 0 where
  pub now : ℕ
  pub event_id : Text
  pub event_hash : Text

abbrev pub first_given : Option Record → (Record → ℕ) → ℕ → ℕ
first_given none f n = n
first_given (some r) f n = f r

abbrev pub subscription_type : Option Record → EventType
subscription_type none = waitlist_subscribed
subscription_type (some r) = waitlist_subscription_updated

abbrev pub landing_page : Text
landing_page = codes "public_landing_page"

abbrev pub subscribed_record : Text → Text → Text → Text → Option Record → Draw → Record
subscribed_record email name intent cohort existing d = record {
  email = email;
  name = name;
  cohort = cohort;
  intent = intent;
  status = codes "waiting";
  source = landing_page;
  consent_version = codes "founding-network-v1";
  inbound_established_at = first_given existing (λ r. r.inbound_established_at) d.now;
  created_at = first_given existing (λ r. r.created_at) d.now;
  updated_at = d.now;
  revision = first_given existing (λ r. r.revision) 0 + 1;
  caused_by_event_id = d.event_id;
  caused_by_event_hash = d.event_hash;
}

abbrev pub claimed_record : Text → Text → Draw → Record
claimed_record email cohort d = record {
  email = email;
  name = email;
  cohort = cohort;
  intent = [];
  status = codes "waiting";
  source = codes "inbound_email";
  consent_version = codes "inbound-email-v1";
  inbound_established_at = d.now;
  created_at = d.now;
  updated_at = d.now;
  revision = 1;
  caused_by_event_id = d.event_id;
  caused_by_event_hash = d.event_hash;
}

abbrev pub holds_seat : Text → Record → Bool
holds_seat cohort r = same r.cohort cohort && includes r.status counted_subscriber_states

abbrev pub seat_of : Text → Option Record → ℕ
seat_of cohort none = 0
seat_of cohort (some r) = if holds_seat cohort r then 1 else 0

abbrev pub is_other : Option Text → Text → Bool
is_other none id = true
is_other (some except) id = not (same id except)

module _ {Db : Type 0} (e : Engine Record Db) (digest : Text → Text) where
  -- The two collections, the events as they were written.
  pub record Waitlist : Type 0 where
    pub subscribers : Db
    pub events : List (Text × Event)

  abbrev pub subscriber_id : Text → Text
  subscriber_id email = codes "sub_" ++ digest email

  -- `activeInCohort`, over the rows that a query returns.
  unfoldable pub active_in_cohort : Db → Text → Option Text → List Text → ℕ
  active_in_cohort db cohort except [] = 0
  active_in_cohort db cohort except (id ∷ ids) =
      (if is_other except id then seat_of cohort (e.get db id) else 0)
      + active_in_cohort db cohort except ids

  abbrev pub is_full : Db → Text → Option Text → Bool
  is_full db cohort except = leb cohort_limit (active_in_cohort db cohort except (e.ids db))

  abbrev pub write_both : Text → Record → EventType → Draw → Waitlist → Waitlist
  write_both id r type d w = record {
    subscribers = e.put w.subscribers id r;
    events =
        w.events
        ++ (
          d.event_id,
          record {
            event_type = type;
            subscriber_id = id;
            cohort = r.cohort;
            source = r.source;
            consent_version = r.consent_version;
            occurred_at = d.now;
          },
        )
          ∷ [];
  }

  abbrev pub subscribed : Text → Text → Text → Text → Draw → Waitlist → Waitlist
  subscribed email name intent cohort d w =
      write_both (subscriber_id email)
        (subscribed_record email name intent cohort (e.get w.subscribers (subscriber_id email)) d)
        (subscription_type (e.get w.subscribers (subscriber_id email))) d w

  abbrev pub claimed : Text → Text → Draw → Waitlist → Waitlist
  claimed email cohort d w =
      write_both (subscriber_id email) (claimed_record email cohort d)
        founding_seat_claimed_by_email d w

  unfoldable pub subscribe : Subscription → Draw → Waitlist → Result Error Waitlist
  subscribe input d w = do
    email ← normalize_email input.email
    name ← normalize_name input.name
    intent ← normalize_intent input.intent
    cohort ← check_cohort input.cohort
    throw_if (not input.consent) consent_required
    throw_if (is_full w.subscribers cohort (some (subscriber_id email))) (capacity_full cohort)
    ok (subscribed email name intent cohort d w)

  -- A row that exists is returned as it is.
  abbrev pub claim_new : Option Record → Text → Text → Draw → Waitlist → Result Error Waitlist
  claim_new (some r) email cohort d w = ok w
  claim_new none email cohort d w = do
    throw_if (is_full w.subscribers cohort none) (capacity_full cohort)
    ok (claimed email cohort d w)

  unfoldable pub claim_inbound : Text → Text → Draw → Waitlist → Result Error Waitlist
  claim_inbound raw_email raw_cohort d w = do
    email ← normalize_email raw_email
    cohort ← check_cohort raw_cohort
    claim_new (e.get w.subscribers (subscriber_id email)) email cohort d w

  abbrev add_row : Option Record → List Record → List Record
  add_row none rest = rest
  add_row (some r) rest = r ∷ rest

  -- `allSubscribers`
  unfoldable pub all_subscribers : Db → List Text → List Record
  all_subscribers db [] = []
  all_subscribers db (id ∷ ids) = add_row (e.get db id) (all_subscribers db ids)

  abbrev pub counted_row : Record → Subscriber
  counted_row r = record { cohort = r.cohort; status = r.status }

  unfoldable pub capacity : Waitlist → Option Text → Option Text → Snapshot
  capacity w sequence updated_at =
      build_capacity_snapshot
        (map counted_row (all_subscribers w.subscribers (e.ids w.subscribers))) sequence updated_at

pub record Query : Type 0 where
  pub cohort : Option Text
  pub status : Option Text
  pub search : Text
  pub offset : ℕ
  pub limit : ℕ

abbrev accepts : Option Text → Text → Bool
accepts none value = true
accepts (some []) value = true
accepts (some (c ∷ cs)) value = same value (c ∷ cs)

abbrev is_found : Text → Record → Bool
is_found [] r = true
is_found (c ∷ cs) r =
    contains (c ∷ cs) (map lower r.name)
    || (contains (c ∷ cs) (map lower r.email) || contains (c ∷ cs) (map lower r.intent))

unfoldable pub filtered : Query → List Record → List Record
filtered q [] = []
filtered q (r ∷ rest) =
    let others = filtered q rest in
    if accepts q.cohort r.cohort
      && (accepts q.status r.status && is_found (map lower (trim q.search)) r)
    then r ∷ others
    else others

-- `right.created_at.localeCompare(left.created_at)`, a stable sort.
unfoldable pub put_newest : Record → List Record → List Record
put_newest r [] = r ∷ []
put_newest r (s ∷ rest) =
    let later = put_newest r rest in
    if leb s.created_at r.created_at then r ∷ s ∷ rest else s ∷ later

unfoldable pub newest_first : List Record → List Record
newest_first [] = []
newest_first (r ∷ rest) = put_newest r (newest_first rest)

-- `rows.slice(offset, offset + n)`
unfoldable pub first_rows : ℕ → List Record → List Record
first_rows n [] = []
first_rows zero (r ∷ rest) = []
first_rows (suc n) (r ∷ rest) = r ∷ first_rows n rest

unfoldable pub skip_rows : ℕ → List Record → List Record
skip_rows n [] = []
skip_rows zero (r ∷ rest) = r ∷ rest
skip_rows (suc n) (r ∷ rest) = skip_rows n rest

-- A limit of 0 is read as the default.
abbrev pub safe_limit : ℕ → ℕ
safe_limit n = min 250 (max 1 (if n == 0 then 100 else n))

pub record Page : Type 0 where
  pub total : ℕ
  pub offset : ℕ
  pub limit : ℕ
  pub records : List Record

abbrev check_filter : Option Text → Result Error (Unit {0})
check_filter none = ok tt
check_filter (some []) = ok tt
check_filter (some (c ∷ cs)) = check_cohort (c ∷ cs) >>= λ own. ok tt

unfoldable pub list_page : Query → List Record → Result Error Page
list_page q rows = do
  check_filter q.cohort
  ok (record {
    total = length (filtered q rows);
    offset = q.offset;
    limit = safe_limit q.limit;
    records = first_rows (safe_limit q.limit) (skip_rows q.offset (newest_first (filtered q rows)));
  })
