-- ===== src/Store/Matches/Tests.antt =====
-- Matches of the graph, at concrete inputs.
use yente.Prelude.{
  Text, ℕ, ◌≡◌, ◌<◌, ◌↔◌, refl, true, Option, none, some, List, [], ◌∷◌, ◌++◌, codes, lookup,
  insert, same, map,
}
use yente.Domain.Address.{lower}
use yente.Store.Cells.{Engine, null, written, row_after, edit}
use yente.Store.Cells.Laws.{list_engine}
use yente.Store.Matches.{
  Match, Proposal, PartyDecision, scorer, rejected, propose, await_parties, claim_party_preview,
  mark_party_preview_sent, record_party_decision, approvals, given,
}
use yente.Store.Matches.Introductions.{
  claim_introduction, fail_introduction, mark_introduced, wait_ms,
}
use yente.Store.Matches.Runs.{
  Call, proposes, awaits, claims_letter, releases_letter, sent_letter, answers, claims, introduces,
  boots_letters, call, some_ruling, run,
}
use yente.Store.Matches.Consent.{IsAgreed, refusals, is_released, run-IsAgreed}
use yente.Store.Matches.Letters.{letter_once}
use yente.Store.Matches.Sending.{claim_once, some_end}
use yente.Domain.Address.{is_space}
use yente.Graph.Consent.{drop_text}
use yente.Store.Jobs.{starts_with}
use yente.Graph.Consent.Address.{address_of, is_address, is_domain, all_plain, has_dot}
use yente.Store.Matches.Sides.{are_theirs, HaveAgreed, stored_consent}
use yente.Store.Matches.Collection.{
  act, act_all, calls_on, confirmed_ready, match_pair_key, confirmed_ready-claim_introduction,
}

abbrev proposal : Proposal
proposal = record {
  seeker = codes "person:ada@x.org";
  offerer = codes "person:bob@y.org";
  match_type = codes "hiring";
  assessment = record { confidence = codes "0.8"; reasons = []; conflicts = []; evidence = [] };
  origin = scorer;
  at = 1;
  note = none;
}

abbrev yes : ℕ → PartyDecision
yes at = record { decision = codes "approve"; quote = none; evidence_id = none; at = at }

abbrev to_consent : List Call
to_consent =
    proposes proposal
    ∷ awaits (codes "mark") 2
    ∷ claims_letter (codes "Ada@x.org") 3
    ∷ sent_letter (codes "ada@x.org") 4
    ∷ answers (codes "ADA@x.org") (yes 5)
    ∷ answers (codes "bob@y.org") (yes 6)
    ∷ []

abbrev fallback : Match
fallback = record {
  seeker = [];
  offerer = [];
  match_type = [];
  assessment = record { confidence = []; reasons = []; conflicts = []; evidence = [] };
  origin = scorer;
  note = none;
  state = rejected;
  proposed_at = 0;
  updated_at = 0;
  decided_at = none;
  decided_by = none;
  previews = [];
  party_decisions = [];
  consent_seen = [];
  operator_confirmed_by = none;
  operator_confirmed_at = none;
  introduction_available_at = none;
  introduction_attempts = none;
  introduction_started_at = none;
  introduction_message_id = none;
  introduced_at = none;
  introduction_last_error = none;
  introduction_last_error_at = none;
}

abbrev the : Option Match → Match
the o = given o fallback

abbrev agreed : Match
agreed = the (run none to_consent)

-- The definitions that the runs compute with.
unfolds : Unit {0}
unfolding run call propose await_parties claim_party_preview mark_party_preview_sent
    record_party_decision approvals claim_introduction fail_introduction mark_introduced wait_ms
    lookup insert same lower some_ruling some_end
unfolds = tt

run-IsAgreed_example :
    (is_released agreed.state ≡ true → IsAgreed agreed)
    × (agreed.state ≡ rejected → 0 < refusals agreed.party_decisions)
unfolding unfolds
run-IsAgreed_example = run-IsAgreed to_consent agreed refl refl

agreed_released : is_released agreed.state ≡ true
unfolding unfolds
agreed_released = refl

abbrev awaited : Match
awaited = the (run none (proposes proposal ∷ awaits (codes "mark") 2 ∷ []))

letter_once_example :
    claim_party_preview (codes "ADA@x.org") 9 (
      run
        (row_after (some awaited) (mark_party_preview_sent (codes "ada@x.org") 4 (some awaited)))
        (releases_letter (codes "ada@x.org") ∷ boots_letters ∷ []))
    ≡ null
unfolding unfolds
letter_once_example =
    letter_once awaited (codes "ada@x.org") (codes "ADA@x.org") 4 9
      (releases_letter (codes "ada@x.org") ∷ boots_letters ∷ []) refl refl refl

abbrev sending : Match
sending = the (row_after none (claim_introduction 7 (some agreed)))

claim_once_example :
    claim_introduction 9 (run (some sending) (claims 8 ∷ introduces 8 (codes "<m>") ∷ [])) ≡ null
unfolding unfolds
claim_once_example =
    claim_once agreed sending 7 9 (claims 8 ∷ introduces 8 (codes "<m>") ∷ []) refl refl

abbrev finished : Match
finished = the (row_after none (mark_introduced 8 (codes "<m>") (some sending)))

abbrev engine : Engine Match (List (Text × Match))
engine = list_engine

abbrev hash : Text → Text
hash t = t

abbrev pair_id : Text
pair_id = codes "person:ada@x.org" ++ (31 ∷ (codes "person:bob@y.org" ++ (31 ∷ codes "hiring")))

abbrev on_pair : List Call → List (Text × Call)
on_pair = map (λ c. (pair_id, c))

stored_consent_example : HaveAgreed (codes "person:ada@x.org") (codes "person:bob@y.org") agreed
unfolding unfolds calls_on match_pair_key act_all act edit are_theirs address_of is_address
    is_domain all_plain has_dot starts_with drop_text is_space
stored_consent_example =
    stored_consent (codes "person:ada@x.org") (codes "person:bob@y.org") engine hash []
      (on_pair to_consent) pair_id agreed refl refl refl refl refl

confirmed_ready-claim_introduction_example :
    (lookup pair_id (confirmed_ready engine hash ((pair_id, agreed) ∷ []) 7) ≡ some agreed) ↔ (
      (engine.get ((pair_id, agreed) ∷ []) pair_id ≡ some agreed)
      × ((n : Match) × (claim_introduction 7 (some agreed) ≡ written n)))
confirmed_ready-claim_introduction_example =
    confirmed_ready-claim_introduction engine hash ((pair_id, agreed) ∷ []) 7 pair_id agreed
