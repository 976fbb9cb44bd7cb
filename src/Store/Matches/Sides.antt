-- ===== src/Store/Matches/Sides.antt =====
-- src/store/graph.js: whose approvals a match is introduced on. The store takes an answer under any
-- address; src/graph/consent.js passes on answers under the addresses of the match's two sides.
use yente.Prelude.{
  Text, ℕ, ◌+◌, ◌≤◌, ◌≡◌, refl, sym, subst, ◌∙◌, ap, Bool, true, false, ◌&&◌, ◌||◌, Option, none,
  some, List, [], ◌∷◌, lookup, insert, arith, same, same_iff, codes,
}
use yente.Graph.Consent.Address.{address_of}
use yente.Store.Cells.{Engine, row_after}
use yente.Store.Matches.{
  Match, PartyDecision, propose, await_parties, claim_party_preview, release_party_preview,
  mark_party_preview_sent, note_consent_evidence, record_party_decision, approvals, is_approval,
  one_more, party_key,
}
use yente.Store.Matches.Introductions.{
  decide, claim_introduction, mark_introduced, fail_introduction, release_stranded, requeue_sending,
  hurry_confirmed,
}
use yente.Store.Matches.Runs.{
  Call, proposes, awaits, claims_letter, releases_letter, sent_letter, notes, answers, rules,
  claims, introduces, fails, boots_letters, boots_sending, boots_waiting, call, some_ruling, run,
}
use yente.Store.Matches.Consent.{IsAgreed, IsDistinct, is_released, run-IsAgreed}
use yente.Store.Matches.Collection.{act_all, calls_on, get-act_all}

-- An approval under the key.
abbrev approves : Option PartyDecision → ℕ
approves none = 0
approves (some d) = one_more (is_approval d) 0

approves-le : (o : Option PartyDecision) → approves o ≤ 1
approves-le none = omega arith
approves-le (some d) = ground arith

-- The key is that of the address, if there is one.
abbrev pub is_key : Text → Option Text → Bool
is_key k none = false
is_key k (some a) = same k (party_key a)

-- The answer under an address.
abbrev answer_of : Option Text → List (Text × PartyDecision) → Option PartyDecision
answer_of none l = none
answer_of (some a) l = lookup (party_key a) l

module _ (a b : Option Text) where
  -- Answers under the two addresses only.
  unfoldable pub are_of : List (Text × PartyDecision) → Bool
  are_of [] = true
  are_of ((k, d) ∷ rest) = (is_key k a || is_key k b) && are_of rest

  are_of-insert :
      (k : Text) (d : PartyDecision) (l : List (Text × PartyDecision))
      → (is_key k a || is_key k b) ≡ true
      → are_of l ≡ true
      → are_of (insert k d l) ≡ true
  unfolding are_of insert
  are_of-insert k d [] h o = ground arith
  are_of-insert k d ((j, c) ∷ l) h o = ground (arith, are_of-insert k d l h)

-- The approvals of a row, with or without one more answer, are at most those of the two addresses.
one_more-le :
    (a b : Option Text) (k : Text) (c : PartyDecision) (l : List (Text × PartyDecision))
    → (is_key k a || is_key k b) ≡ true
    → lookup k l ≡ none
    → approvals l ≤ approves (answer_of a l) + approves (answer_of b l)
    → approvals ((k, c) ∷ l)
      ≤ approves (answer_of a ((k, c) ∷ l)) + approves (answer_of b ((k, c) ∷ l))
unfolding approvals lookup
one_more-le none none k c l t free h = ground arith
one_more-le none (some b) k c l t free h = ground (arith, same_iff k (party_key b))
one_more-le (some a) none k c l t free h = ground (arith, same_iff k (party_key a))
one_more-le (some a) (some b) k c l t free h =
    ground (arith, same_iff k (party_key a), same_iff k (party_key b))

-- One answer for each key, so two approvals are those of both.
approvals-le :
    (a b : Option Text) (l : List (Text × PartyDecision))
    → are_of a b l ≡ true
    → IsDistinct l
    → approvals l ≤ approves (answer_of a l) + approves (answer_of b l)
unfolding are_of approvals IsDistinct
approvals-le a b [] o d = omega arith
approvals-le a b ((k, c) ∷ l) o (free, d) =
    one_more-le a b k c l (ground arith) free (approvals-le a b l (ground arith) d)

-- The person has an address, and an approval under it is on file.
pub record HasApproved (subject : Text) (m : Match) : Type 0 where
  pub address : Text
  pub reached_at : address_of subject ≡ some address
  pub answer : PartyDecision
  pub on_file : lookup (party_key address) m.party_decisions ≡ some answer
  pub approved : answer.decision ≡ codes "approve"

approved_answer :
    (subject : Text) (m : Match) (a : Option Text) (o : Option PartyDecision)
    → address_of subject ≡ a
    → answer_of a m.party_decisions ≡ o
    → 1 ≤ approves o
    → HasApproved subject m
approved_answer subject m none none g e h = absurd (omega arith)
approved_answer subject m none (some d) g e h = absurd (ground arith)
approved_answer subject m (some a) none g e h = absurd (omega arith)
approved_answer subject m (some a) (some d) g e h = record {
  address = a;
  reached_at = g;
  answer = d;
  on_file = e;
  approved = ground (arith, same_iff d.decision (codes "approve"));
}

module _ (seeker offerer : Text) where
  -- A proposal of the two, an answer of one of them, or another call.
  abbrev is_theirs : Call → Bool
  is_theirs (proposes p) = same p.seeker seeker && same p.offerer offerer
  is_theirs (answers address d) =
      is_key (party_key address) (address_of seeker)
      || is_key (party_key address) (address_of offerer)
  is_theirs _ = true

  unfoldable pub are_theirs : List Call → Bool
  are_theirs [] = true
  are_theirs (c ∷ cs) = is_theirs c && are_theirs cs

  -- A match of the two, with answers of theirs only.
  pub record IsOfPair (m : Match) : Type 0 where
    pub seeks : m.seeker ≡ seeker
    pub offers : m.offerer ≡ offerer
    pub answered : are_of (address_of seeker) (address_of offerer) m.party_decisions ≡ true

  abbrev IfOfPair : Option Match → Type 0
  IfOfPair none = Unit {0}
  IfOfPair (some m) = IsOfPair m

  call-IsOfPair :
      (c : Call) (m : Match)
      → is_theirs c ≡ true
      → IsOfPair m
      → IfOfPair (row_after (some m) (call c (some m)))
  unfolding call propose await_parties claim_party_preview release_party_preview
      mark_party_preview_sent note_consent_evidence record_party_decision decide claim_introduction
      mark_introduced fail_introduction release_stranded requeue_sending hurry_confirmed are_of
  call-IsOfPair (proposes p) m t h =
      ground (arith, same_iff p.seeker seeker, same_iff p.offerer offerer)
  call-IsOfPair (awaits by at) m t h = ground arith
  call-IsOfPair (claims_letter address at) m t h = ground arith
  call-IsOfPair (releases_letter address) m t h = ground arith
  call-IsOfPair (sent_letter address at) m t h = ground arith
  call-IsOfPair (notes id) m t h = ground arith
  call-IsOfPair (answers address d) m t h = ground (
    arith,
    are_of-insert (address_of seeker) (address_of offerer) (party_key address) d m.party_decisions,
  )
  call-IsOfPair (rules s by at why) m t h = ground arith
  call-IsOfPair (claims at) m t h = ground arith
  call-IsOfPair (introduces at id) m t h = ground arith
  call-IsOfPair (fails at error) m t h = ground arith
  call-IsOfPair boots_letters m t h = ground arith
  call-IsOfPair (boots_sending at) m t h = ground arith
  call-IsOfPair (boots_waiting at) m t h = ground arith

  call_on_none : (c : Call) → is_theirs c ≡ true → IfOfPair (row_after none (call c none))
  unfolding call propose await_parties claim_party_preview release_party_preview
      mark_party_preview_sent note_consent_evidence record_party_decision decide claim_introduction
      mark_introduced fail_introduction are_of
  call_on_none (proposes p) t = ground (arith, same_iff p.seeker seeker, same_iff p.offerer offerer)
  call_on_none (awaits by at) t = tt
  call_on_none (claims_letter address at) t = tt
  call_on_none (releases_letter address) t = tt
  call_on_none (sent_letter address at) t = tt
  call_on_none (notes id) t = tt
  call_on_none (answers address d) t = tt
  call_on_none (rules s by at why) t = tt
  call_on_none (claims at) t = tt
  call_on_none (introduces at id) t = tt
  call_on_none (fails at error) t = tt
  call_on_none boots_letters t = tt
  call_on_none (boots_sending at) t = tt
  call_on_none (boots_waiting at) t = tt

  call-IfOfPair :
      (c : Call) (row : Option Match)
      → is_theirs c ≡ true
      → IfOfPair row
      → IfOfPair (row_after row (call c row))
  call-IfOfPair c (some m) t h = call-IsOfPair c m t h
  call-IfOfPair c none t h = call_on_none c t

  run-IfOfPair :
      (cs : List Call) (row : Option Match)
      → are_theirs cs ≡ true
      → IfOfPair row
      → IfOfPair (run row cs)
  unfolding run are_theirs
  run-IfOfPair [] row t h = h
  run-IfOfPair (c ∷ cs) row t h =
      run-IfOfPair cs (row_after row (call c row)) (ground arith)
        (call-IfOfPair c row (ground arith) h)

  -- A match of the two on which both have agreed.
  pub record HaveAgreed (m : Match) : Type 0 where
    pub of_pair : IsOfPair m
    pub agreed : IsAgreed m
    pub seeker_approved : HasApproved seeker m
    pub offerer_approved : HasApproved offerer m

  both_approved : (m : Match) → IsOfPair m → IsAgreed m → HaveAgreed m
  both_approved m p g =
      let s : Option PartyDecision = answer_of (address_of seeker) m.party_decisions in
      let o : Option PartyDecision = answer_of (address_of offerer) m.party_decisions in
      let le =
        approvals-le (address_of seeker) (address_of offerer) m.party_decisions p.answered
          g.distinct in
      record {
        of_pair = p;
        agreed = g;
        seeker_approved =
            approved_answer seeker m (address_of seeker) s refl refl
              (omega (arith, le, g.two_approvals, approves-le o));
        offerer_approved =
            approved_answer offerer m (address_of offerer) o refl refl
              (omega (arith, le, g.two_approvals, approves-le s));
      }

  module _ {Db : Type 0} (e : Engine Match Db) (digest : Text → Text) where
    -- Where the proposals on a match are those of its two sides, the answers are given under their
    -- addresses, and the operator did not rule on it: a match that the collection did not hold before the calls is confirmed, being
    -- introduced or introduced only with the approval of each of the two on file, and no refusal.
    pub stored_consent :
        (db : Db) (calls : List (Text × Call)) (j : Text) (m : Match)
        → e.get db j ≡ none
        → some_ruling (calls_on e digest j calls) ≡ false
        → are_theirs (calls_on e digest j calls) ≡ true
        → e.get (act_all e digest db calls) j ≡ some m
        → is_released m.state ≡ true
        → HaveAgreed m
    stored_consent db calls j m fresh free theirs h r =
        let made : run none (calls_on e digest j calls) ≡ some m =
          ap (λ row. run row (calls_on e digest j calls)) (sym fresh)
          ∙ sym (get-act_all e digest db calls j)
          ∙ h in
        both_approved m
          (subst IfOfPair made (run-IfOfPair (calls_on e digest j calls) none theirs tt))
          ((run-IsAgreed (calls_on e digest j calls) m free made).0 r)
