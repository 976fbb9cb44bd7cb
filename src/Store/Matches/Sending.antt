-- ===== src/Store/Matches/Sending.antt =====
-- One sender at a time, and what an introduction that was sent stays.
use yente.Prelude.{
  Text, ℕ, ◌+◌, ◌≤◌, ◌≡◌, refl, ◌↔◌, Bool, true, false, ◌||◌, Option, none, some, List, [], ◌∷◌,
  arith, max_date,
}
use yente.Store.Cells.{row_after, written, null}
use yente.Store.Matches.{
  Match, State, introduction_sending, introduced, propose, await_parties, claim_party_preview,
  release_party_preview, mark_party_preview_sent, note_consent_evidence, record_party_decision,
  given,
}
use yente.Store.Matches.Introductions.{
  decide, claim_introduction, mark_introduced, fail_introduction, release_stranded, requeue_sending,
  hurry_confirmed, wait_ms, failed,
}
use yente.Store.Matches.Runs.{
  Call, proposes, awaits, claims_letter, releases_letter, sent_letter, notes, answers, rules,
  claims, introduces, fails, boots_letters, boots_sending, boots_waiting, call, is_ruling,
  some_ruling, run,
}

-- A call that ends a sending: the failure, the restart, a ruling; or its success.
abbrev pub ends_sending : Call → Bool
ends_sending (rules _ _ _ _) = true
ends_sending (fails _ _) = true
ends_sending (boots_sending _) = true
ends_sending _ = false

unfoldable pub some_end : List Call → Bool
some_end [] = false
some_end (c ∷ cs) = ends_sending c || some_end cs

abbrev pub is_taken : State → Bool
is_taken introduction_sending = true
is_taken introduced = true
is_taken _ = false

abbrev pub TakenRow : Option Match → Type 0
TakenRow none = Bool.true ≡ false
TakenRow (some m) = is_taken m.state ≡ true

call-Taken :
    (c : Call) (m : Match)
    → ends_sending c ≡ false
    → is_taken m.state ≡ true
    → TakenRow (row_after (some m) (call c (some m)))
unfolding call propose await_parties claim_party_preview release_party_preview
    mark_party_preview_sent note_consent_evidence record_party_decision decide claim_introduction
    mark_introduced fail_introduction release_stranded requeue_sending hurry_confirmed
call-Taken (proposes p) m n h = ground arith
call-Taken (awaits by at) m n h = ground arith
call-Taken (claims_letter address at) m n h = ground arith
call-Taken (releases_letter address) m n h = ground arith
call-Taken (sent_letter address at) m n h = ground arith
call-Taken (notes id) m n h = ground arith
call-Taken (answers address d) m n h = ground arith
call-Taken (rules s by at why) m n h = ground arith
call-Taken (claims at) m n h = ground arith
call-Taken (introduces at id) m n h = ground arith
call-Taken (fails at error) m n h = ground arith
call-Taken boots_letters m n h = ground arith
call-Taken (boots_sending at) m n h = ground arith
call-Taken (boots_waiting at) m n h = ground arith

run-Taken :
    (cs : List Call) (row : Option Match)
    → some_end cs ≡ false
    → TakenRow row
    → TakenRow (run row cs)
unfolding run some_end
run-Taken [] row n h = h
run-Taken (c ∷ cs) none n h = absurd (ground arith)
run-Taken (c ∷ cs) (some m) n h =
    run-Taken cs (row_after (some m) (call c (some m))) (ground arith)
      (call-Taken c m (ground arith) h)

taken_refuses : (row : Option Match) (at : ℕ) → TakenRow row → claim_introduction at row ≡ null
unfolding claim_introduction
taken_refuses none at h = refl
taken_refuses (some m) at h = ground arith

claimed-Taken :
    (m n : Match) (at : ℕ) → claim_introduction at (some m) ≡ written n → TakenRow (some n)
unfolding claim_introduction
claimed-Taken m n at h = ground arith

-- From a claim that succeeded on, no claim of the same introduction succeeds until the sending is
-- reported failed, a new process requeues it, or the operator rules; after its success, none at all.
pub claim_once :
    (m n : Match) (at later : ℕ) (cs : List Call)
    → claim_introduction at (some m) ≡ written n
    → some_end cs ≡ false
    → claim_introduction later (run (some n) cs) ≡ null
claim_once m n at later cs e free =
    taken_refuses _ later (run-Taken cs (some n) free (claimed-Taken m n at e))

-- The introduction that went out.
pub record SameIntroduction (m n : Match) : Type 0 where
  pub still : n.state ≡ introduced
  pub same_message : n.introduction_message_id ≡ m.introduction_message_id
  pub same_time : n.introduced_at ≡ m.introduced_at
  pub same_answers : n.party_decisions ≡ m.party_decisions
  pub same_attempts : n.introduction_attempts ≡ m.introduction_attempts

abbrev pub SameRow : Match → Option Match → Type 0
SameRow m none = Bool.true ≡ false
SameRow m (some n) = SameIntroduction m n

call-Same :
    (c : Call) (m n : Match)
    → is_ruling c ≡ false
    → SameIntroduction m n
    → SameRow m (row_after (some n) (call c (some n)))
unfolding call propose await_parties claim_party_preview release_party_preview
    mark_party_preview_sent note_consent_evidence record_party_decision decide claim_introduction
    mark_introduced fail_introduction release_stranded requeue_sending hurry_confirmed
call-Same (proposes p) m k n h = ground arith
call-Same (awaits by at) m k n h = ground arith
call-Same (claims_letter address at) m k n h = ground arith
call-Same (releases_letter address) m k n h = ground arith
call-Same (sent_letter address at) m k n h = ground arith
call-Same (notes id) m k n h = ground arith
call-Same (answers address d) m k n h = ground arith
call-Same (rules s by at why) m k n h = ground arith
call-Same (claims at) m k n h = ground arith
call-Same (introduces at id) m k n h = ground arith
call-Same (fails at error) m k n h = ground arith
call-Same boots_letters m k n h = ground arith
call-Same (boots_sending at) m k n h = ground arith
call-Same (boots_waiting at) m k n h = ground arith

run-Same :
    (cs : List Call) (m : Match) (row : Option Match)
    → some_ruling cs ≡ false
    → SameRow m row
    → SameRow m (run row cs)
unfolding run some_ruling
run-Same [] m row n h = h
run-Same (c ∷ cs) m none n h = absurd (ground arith)
run-Same (c ∷ cs) m (some k) n h =
    run-Same cs m (row_after (some k) (call c (some k))) (ground arith)
      (call-Same c m k (ground arith) h)

-- An introduction that was sent stays so, under its message id and with its consents, through any
-- sequence of calls without a ruling of the operator.
pub introduced_final :
    (m : Match) (cs : List Call)
    → m.state ≡ introduced
    → some_ruling cs ≡ false
    → SameRow m (run (some m) cs)
introduced_final m cs s n = run-Same cs m (some m) n (ground arith)

abbrev pub due_again : ℕ → Match → ℕ
due_again at m = at + wait_ms (given m.introduction_attempts 1)

wait_capped : (at : ℕ) (m : Match) → due_again at m ≤ at + 3600000
unfolding wait_ms
wait_capped at m = omega arith

abbrev sending_again : ℕ → Match → Match
sending_again later k = record k {
  state = introduction_sending;
  introduction_attempts = some (given k.introduction_attempts 0 + 1);
  introduction_started_at = some later;
  updated_at = later;
}

claim_from :
    (at later : ℕ) (error : Text) (m : Match)
    → (due_again at m ≤ later)
      ↔ ((n : Match) × (claim_introduction later (some (failed at error m)) ≡ written n))
unfolding claim_introduction
claim_from at later error m =
    ((λ h. (sending_again later (failed at error m), ground arith)), (λ (n, h). ground arith))

-- A sending that is reported failed at a time which leaves room for the wait is confirmed again with
-- its consents and attempts, and can be claimed exactly from the end of the wait on, which is at most
-- an hour.
pub failed_introduction_waits :
    (m : Match) (at later : ℕ) (error : Text)
    → m.state ≡ introduction_sending
    → due_again at m ≤ max_date
    → (k : Match) × (fail_introduction at error (some m) ≡ written k)
      × (k.party_decisions ≡ m.party_decisions)
      × (k.introduction_attempts ≡ m.introduction_attempts)
      × (due_again at m ≤ at + 3600000)
      × ((due_again at m ≤ later) ↔ ((n : Match) × (claim_introduction later (some k) ≡ written n)))
unfolding fail_introduction
failed_introduction_waits m at later error s room =
    (failed at error m, ground arith, refl, refl, wait_capped at m, claim_from at later error m)
