-- ===== src/Store/Matches/Consent.antt =====
-- A match is introduced only with two consents on file.
use yente.Prelude.{
  Text, ℕ, ◌≤◌, ◌<◌, ◌≡◌, refl, subst, Bool, true, false, Option, none, some, is_some, List, [],
  ◌∷◌, lookup, insert, lookup-insert, arith, same, same_iff, codes,
}
use yente.Store.Cells.{row_after}
use yente.Store.Matches.{
  Match, State, PartyDecision, proposed, awaiting_parties, confirmed, introduction_sending,
  introduced, rejected, propose, await_parties, claim_party_preview, release_party_preview,
  mark_party_preview_sent, note_consent_evidence, record_party_decision, approvals, one_more,
  party_key, settled,
}
use yente.Store.Matches.Introductions.{
  decide, claim_introduction, mark_introduced, fail_introduction, release_stranded, requeue_sending,
  hurry_confirmed,
}
use yente.Store.Matches.Runs.{
  Call, proposes, awaits, claims_letter, releases_letter, sent_letter, notes, answers, rules,
  claims, introduces, fails, boots_letters, boots_sending, boots_waiting, call, is_ruling,
  some_ruling, run,
}

abbrev pub is_refusal : PartyDecision → Bool
is_refusal d = same d.decision (codes "decline")

unfoldable pub refusals : List (Text × PartyDecision) → ℕ
refusals [] = 0
refusals ((a, d) ∷ rest) = one_more (is_refusal d) (refusals rest)

-- One answer for each address.
unfoldable pub IsDistinct : List (Text × PartyDecision) → Type 0
IsDistinct [] = Unit {0}
IsDistinct ((a, d) ∷ rest) = (lookup a rest ≡ none) × IsDistinct rest

IsDistinct-insert :
    (k : Text) (d : PartyDecision) (l : List (Text × PartyDecision))
    → IsDistinct l
    → IsDistinct (insert k d l)
unfolding IsDistinct insert lookup
IsDistinct-insert k d [] h = (refl, tt)
IsDistinct-insert k d ((a, c) ∷ l) (free, h) =
    ground (arith, same_iff a k, same_iff k a, lookup-insert k a d l, IsDistinct-insert k d l h)

refusals-insert :
    (k : Text) (d : PartyDecision) (l : List (Text × PartyDecision))
    → is_refusal d ≡ false
    → refusals l ≡ 0
    → refusals (insert k d l) ≡ 0
unfolding refusals insert
refusals-insert k d [] f h = ground arith
refusals-insert k d ((a, c) ∷ l) f h = ground (arith, refusals-insert k d l f)

refused-insert :
    (k : Text) (d : PartyDecision) (l : List (Text × PartyDecision))
    → is_refusal d ≡ true
    → 0 < refusals (insert k d l)
unfolding refusals insert
refused-insert k d [] f = ground arith
refused-insert k d ((a, c) ∷ l) f = ground (arith, refused-insert k d l f)

-- What is on file when both sides have agreed.
pub record IsAgreed (m : Match) : Type 0 where
  pub operator : is_some m.operator_confirmed_by ≡ true
  pub nobody_refused : refusals m.party_decisions ≡ 0
  pub distinct : IsDistinct m.party_decisions
  pub two_approvals : 2 ≤ approvals m.party_decisions

abbrev pub Standing : State → Match → Type 0
Standing proposed m = Unit {0}
Standing awaiting_parties m =
    (is_some m.operator_confirmed_by ≡ true)
    × (refusals m.party_decisions ≡ 0)
    × IsDistinct m.party_decisions
Standing confirmed m = IsAgreed m
Standing introduction_sending m = IsAgreed m
Standing introduced m = IsAgreed m
Standing rejected m = 0 < refusals m.party_decisions

abbrev pub Stands : Option Match → Type 0
Stands none = Unit {0}
Stands (some m) = Standing m.state m

Standing-at : (s : State) (m : Match) → m.state ≡ s → Standing m.state m → Standing s m
Standing-at s m e h = subst (λ t. Standing t m) e h

settled-Standing :
    (key : Text) (d : PartyDecision) (m : Match)
    → Standing awaiting_parties m
    → m.state ≡ awaiting_parties
    → Stands (some (settled key d.decision (insert key d m.party_decisions) d.at m))
settled-Standing key d m (op, none_refused, distinct) s = ground (
  arith,
  IsDistinct-insert key d m.party_decisions distinct,
  refusals-insert key d m.party_decisions,
  refused-insert key d m.party_decisions,
)

answers-Standing :
    (address : Text) (d : PartyDecision) (m : Match)
    → Standing m.state m
    → Stands (row_after (some m) (record_party_decision address d (some m)))
unfolding record_party_decision
answers-Standing address d m h = ground (arith, settled-Standing (party_key address) d m)

call-Standing :
    (c : Call) (m : Match)
    → is_ruling c ≡ false
    → Standing m.state m
    → Stands (row_after (some m) (call c (some m)))
unfolding call propose await_parties claim_party_preview release_party_preview
    mark_party_preview_sent note_consent_evidence decide claim_introduction mark_introduced
    fail_introduction release_stranded requeue_sending hurry_confirmed refusals IsDistinct
call-Standing (proposes p) m n h = ground arith
call-Standing (awaits by at) m n h = ground arith
call-Standing (claims_letter address at) m n h = ground arith
call-Standing (releases_letter address) m n h = ground arith
call-Standing (sent_letter address at) m n h = ground arith
call-Standing (notes id) m n h = ground arith
call-Standing (answers address d) m n h = answers-Standing address d m h
call-Standing (rules s by at why) m n h = ground arith
call-Standing (claims at) m n h = ground arith
call-Standing (introduces at id) m n h = ground arith
call-Standing (fails at error) m n h = ground arith
call-Standing boots_letters m n h = ground arith
call-Standing (boots_sending at) m n h = ground arith
call-Standing (boots_waiting at) m n h = ground arith

call_on_none : (c : Call) → Stands (row_after none (call c none))
unfolding call propose await_parties claim_party_preview release_party_preview
    mark_party_preview_sent note_consent_evidence record_party_decision decide claim_introduction
    mark_introduced fail_introduction
call_on_none (proposes p) = tt
call_on_none (awaits by at) = tt
call_on_none (claims_letter address at) = tt
call_on_none (releases_letter address) = tt
call_on_none (sent_letter address at) = tt
call_on_none (notes id) = tt
call_on_none (answers address d) = tt
call_on_none (rules s by at why) = tt
call_on_none (claims at) = tt
call_on_none (introduces at id) = tt
call_on_none (fails at error) = tt
call_on_none boots_letters = tt
call_on_none (boots_sending at) = tt
call_on_none (boots_waiting at) = tt

call-Stands :
    (c : Call) (row : Option Match)
    → is_ruling c ≡ false
    → Stands row
    → Stands (row_after row (call c row))
call-Stands c (some m) n h = call-Standing c m n h
call-Stands c none n h = call_on_none c

pub run-Stands :
    (cs : List Call) (row : Option Match)
    → some_ruling cs ≡ false
    → Stands row
    → Stands (run row cs)
unfolding run some_ruling
run-Stands [] row n h = h
run-Stands (c ∷ cs) row n h =
    run-Stands cs (row_after row (call c row)) (ground arith) (call-Stands c row (ground arith) h)

abbrev pub is_released : State → Bool
is_released confirmed = true
is_released introduction_sending = true
is_released introduced = true
is_released _ = false

released-IsAgreed : (m : Match) → is_released m.state ≡ true → Standing m.state m → IsAgreed m
released-IsAgreed m r h = ground arith

-- Whatever calls are made on a match that did not exist before, as long as the operator does not rule
-- on it: it is confirmed, being introduced or introduced only after the operator put it to both sides,
-- with approvals of at least two addresses on file, one answer for each, and no refusal among them; a
-- rejected match has a refusal on file.
pub run-IsAgreed :
    (cs : List Call) (m : Match)
    → some_ruling cs ≡ false
    → run none cs ≡ some m
    → (is_released m.state ≡ true → IsAgreed m)
      × (m.state ≡ rejected → 0 < refusals m.party_decisions)
run-IsAgreed cs m n e =
    let h = subst Stands e (run-Stands cs none n tt) in
    ((λ r. released-IsAgreed m r h), (λ r. Standing-at rejected m r h))
