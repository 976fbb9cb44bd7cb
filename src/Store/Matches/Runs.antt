-- ===== src/Store/Matches/Runs.antt =====
-- The calls of GraphMatchRepository as they act on the row of one match.
use yente.Prelude.{Text, ℕ, Bool, true, false, Option, none, some, List, [], ◌∷◌, ◌||◌}
use yente.Store.Cells.{Outcome, row_after, written, null}
use yente.Store.Matches.{
  Match, State, Proposal, PartyDecision, propose, await_parties, claim_party_preview,
  release_party_preview, mark_party_preview_sent, note_consent_evidence, record_party_decision,
}
use yente.Store.Matches.Introductions.{
  decide, claim_introduction, mark_introduced, fail_introduction, release_stranded, requeue_sending,
  hurry_confirmed,
}

pub data Call : Type 0 where
  proposes : Proposal → Call
  awaits : Text → ℕ → Call
  claims_letter : Text → ℕ → Call
  releases_letter : Text → Call
  sent_letter : Text → ℕ → Call
  notes : Text → Call
  answers : Text → PartyDecision → Call
  rules : State → Text → ℕ → Option Text → Call
  claims : ℕ → Call
  introduces : ℕ → Text → Call
  fails : ℕ → Text → Call
  boots_letters : Call
  boots_sending : ℕ → Call
  boots_waiting : ℕ → Call

-- What a loop over all rows does to one.
abbrev pub swept : Option Match → (Match → Option Match) → Outcome Match
swept none f = null
swept (some m) f = elim (f m) [ none ↦ null | some n ↦ written n ]

unfoldable pub call : Call → Option Match → Outcome Match
call (proposes p) row = propose p row
call (awaits by at) row = await_parties by at row
call (claims_letter address at) row = claim_party_preview address at row
call (releases_letter address) row = release_party_preview address row
call (sent_letter address at) row = mark_party_preview_sent address at row
call (notes evidence_id) row = note_consent_evidence evidence_id row
call (answers address d) row = record_party_decision address d row
call (rules state by at note) row = decide state by at note row
call (claims at) row = claim_introduction at row
call (introduces at message_id) row = mark_introduced at message_id row
call (fails at error) row = fail_introduction at error row
call boots_letters row = swept row release_stranded
call (boots_sending at) row = swept row (requeue_sending at)
call (boots_waiting at) row = swept row (hurry_confirmed at)

-- A ruling of the operator, the one call that may set any state.
abbrev pub is_ruling : Call → Bool
is_ruling (rules _ _ _ _) = true
is_ruling _ = false

unfoldable pub some_ruling : List Call → Bool
some_ruling [] = false
some_ruling (c ∷ cs) = is_ruling c || some_ruling cs

unfoldable pub run : Option Match → List Call → Option Match
run row [] = row
run row (c ∷ cs) = run (row_after row (call c row)) cs
