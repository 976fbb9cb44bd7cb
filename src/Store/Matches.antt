-- ===== src/Store/Matches.antt =====
-- src/store/graph.js: GraphMatchRepository, the proposed introductions and the consent of their
-- parties. A method is what it does to the row that it reads, and that on a collection. `digest`, a
-- hash over a package, gives a row its id, and is a parameter. A time is its milliseconds since 1970;
-- ISO texts, which the source compares, stand in the same order. Addresses are no names of
-- `Object.prototype`.
pub mod Introductions
pub mod Collection
pub mod Sides
pub mod Runs
pub mod Consent
pub mod Letters
pub mod Sending
mod Tests
use yente.Prelude.{
  Text, ℕ, suc, same, ◌+◌, ◌-◌, ◌*◌, ◌^◌, Bool, true, false, not, ◌&&◌, ◌||◌, Option, none, some,
  is_some, List, [], ◌∷◌, ◌++◌, leb, ltb, max_date, lookup, insert, remove, codes, length, min, max,
  if◌then◌else◌, map, includes,
}
use yente.Domain.Address.{lower}
use yente.Store.Cells.{Engine, Outcome, null, kept, written, thrown, edit, sweep, select, read_by}

pub data State : Type 0 where
  proposed awaiting_parties confirmed introduction_sending introduced rejected : State

pub data Origin : Type 0 where
  scorer human : Origin

-- `{ claimedAt, sentAt }` of one letter.
pub record Slot : Type 0 where
  pub claimed_at : Option ℕ
  pub sent_at : Option ℕ

pub record PartyDecision : Type 0 where
  pub decision : Text
  pub quote : Option Text
  pub evidence_id : Option Text
  pub at : ℕ

-- What the scorer found; no method reads it.
pub record Assessment : Type 0 where
  pub confidence : Text
  pub reasons : List Text
  pub conflicts : List Text
  pub evidence : List Text

-- A field that a row does not have yet is `none`, or empty where the source spreads it.
pub record Match : Type 0 where
  pub seeker : Text
  pub offerer : Text
  pub match_type : Text
  pub assessment : Assessment
  pub origin : Origin
  pub note : Option Text
  pub state : State
  pub proposed_at : ℕ
  pub updated_at : ℕ
  pub decided_at : Option ℕ
  pub decided_by : Option Text
  pub previews : List (Text × Slot)
  pub party_decisions : List (Text × PartyDecision)
  pub consent_seen : List Text
  pub operator_confirmed_by : Option Text
  pub operator_confirmed_at : Option ℕ
  pub introduction_available_at : Option ℕ
  pub introduction_attempts : Option ℕ
  pub introduction_started_at : Option ℕ
  pub introduction_message_id : Option Text
  pub introduced_at : Option ℕ
  pub introduction_last_error : Option Text
  pub introduction_last_error_at : Option ℕ

pub record Proposal : Type 0 where
  pub seeker : Text
  pub offerer : Text
  pub match_type : Text
  pub assessment : Assessment
  pub origin : Origin
  pub at : ℕ
  pub note : Option Text

-- `a ?? b`
abbrev pub given {ℓ} : {A : Type ℓ} → Option A → A → A
given none b = b
given (some a) b = a

abbrev pub or_given {ℓ} : {A : Type ℓ} → Option A → Option A → Option A
or_given none b = b
or_given (some a) b = some a

-- `String(address).toLowerCase()`
abbrev pub party_key : Text → Text
party_key address = map lower address

abbrev pub proposed_row : Proposal → Origin → Option Text → ℕ → Match
proposed_row p origin note proposed_at = record {
  seeker = p.seeker;
  offerer = p.offerer;
  match_type = p.match_type;
  assessment = p.assessment;
  origin = origin;
  note = note;
  state = proposed;
  proposed_at = proposed_at;
  updated_at = p.at;
  decided_at = none;
  decided_by = none;
  previews = [];
  party_decisions = [];
  consent_seen = [];
  operator_confirmed_by = none;
  operator_confirmed_at = none;
  introduction_available_at = none;
  introduction_attempts = none;
  introduction_started_at = none;
  introduction_message_id = none;
  introduced_at = none;
  introduction_last_error = none;
  introduction_last_error_at = none;
}

abbrev keep_origin : Origin → Origin → Origin
keep_origin human origin = human
keep_origin scorer origin = origin

abbrev propose_over : State → Match → Proposal → Outcome Match
propose_over proposed held p =
    written (
      proposed_row p (keep_origin held.origin p.origin) (or_given p.note held.note)
        held.proposed_at)
propose_over _ held p = kept held

unfoldable pub propose : Proposal → Option Match → Outcome Match
propose p none = written (proposed_row p p.origin p.note p.at)
propose p (some held) = propose_over held.state held p

abbrev await_in : State → Text → ℕ → Match → Outcome Match
await_in proposed by at held = written (record held {
  state = awaiting_parties;
  previews = [];
  party_decisions = [];
  consent_seen = [];
  operator_confirmed_by = some by;
  operator_confirmed_at = some at;
  updated_at = at;
})
await_in _ by at held = null

-- `if (!held) return null`
abbrev pub on_held : Option Match → (Match → Outcome Match) → Outcome Match
on_held none f = null
on_held (some held) f = f held

unfoldable pub await_parties : Text → ℕ → Option Match → Outcome Match
await_parties by at row = on_held row (λ held. await_in held.state by at held)

unfoldable pub claim_party_preview : Text → ℕ → Option Match → Outcome Match
claim_party_preview address at row = on_held row (λ held.
    if is_some (lookup (party_key address) held.previews)
    then null
    else written (record held {
      previews =
          insert (party_key address) (record { claimed_at = some at; sent_at = none })
            held.previews;
      updated_at = at;
    }))

-- `slot?.sentAt`
abbrev pub slot_sent : Option Slot → Bool
slot_sent none = false
slot_sent (some s) = is_some s.sent_at

unfoldable pub release_party_preview : Text → Option Match → Outcome Match
release_party_preview address row = on_held row (λ held.
    if slot_sent (lookup (party_key address) held.previews)
    then kept held
    else written (record held { previews = remove (party_key address) held.previews }))

abbrev pub sent_slot : Option Slot → ℕ → Slot
sent_slot none at = record { claimed_at = none; sent_at = some at }
sent_slot (some s) at = record s { sent_at = some at }

unfoldable pub mark_party_preview_sent : Text → ℕ → Option Match → Outcome Match
mark_party_preview_sent address at row = on_held row (λ held. written (record held {
  previews =
      insert (party_key address) (sent_slot (lookup (party_key address) held.previews) at)
        held.previews;
  updated_at = at;
}))

unfoldable pub note_consent_evidence : Text → Option Match → Outcome Match
note_consent_evidence evidence_id row = on_held row (λ held.
    if includes evidence_id held.consent_seen
    then kept held
    else written (record held { consent_seen = held.consent_seen ++ evidence_id ∷ [] }))

abbrev pub is_approval : PartyDecision → Bool
is_approval d = same d.decision (codes "approve")

abbrev pub one_more : Bool → ℕ → ℕ
one_more true n = suc n
one_more false n = n

-- How many of the values are approvals.
unfoldable pub approvals : List (Text × PartyDecision) → ℕ
approvals [] = 0
approvals ((a, d) ∷ rest) = one_more (is_approval d) (approvals rest)

abbrev pub declined : Text → List (Text × PartyDecision) → ℕ → Match → Match
declined key decisions at held = record held {
  party_decisions = decisions;
  state = rejected;
  decided_at = some at;
  decided_by = some key;
  updated_at = at;
}

abbrev pub confirmed_by_both : List (Text × PartyDecision) → ℕ → Match → Match
confirmed_by_both decisions at held = record held {
  party_decisions = decisions;
  state = confirmed;
  decided_at = some at;
  decided_by = some (codes "both parties");
  introduction_available_at = some at;
  introduction_attempts = some (given held.introduction_attempts 0);
  introduction_last_error = none;
  updated_at = at;
}

abbrev pub settled : Text → Text → List (Text × PartyDecision) → ℕ → Match → Match
settled key decision decisions at held =
    if same decision (codes "decline")
    then declined key decisions at held
    else (if leb 2 (approvals decisions)
        then confirmed_by_both decisions at held
        else record held { party_decisions = decisions; updated_at = at })

abbrev record_in : State → Text → PartyDecision → Match → Outcome Match
record_in awaiting_parties key d held =
    written (settled key d.decision (insert key d held.party_decisions) d.at held)
record_in _ key d held = null

unfoldable pub record_party_decision : Text → PartyDecision → Option Match → Outcome Match
record_party_decision address d row =
    on_held row (λ held. record_in held.state (party_key address) d held)
