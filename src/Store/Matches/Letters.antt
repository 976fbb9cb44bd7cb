-- ===== src/Store/Matches/Letters.antt =====
-- Letters that are sent once, matches that are decided once.
use yente.Prelude.{
  Text, ℕ, ◌≡◌, refl, sym, subst, Bool, true, false, Option, none, some, List, [], ◌∷◌, lookup,
  lookup-insert, lookup-remove, arith, same_iff, same_refl,
}
use yente.Store.Cells.{row_after, null}
use yente.Store.Matches.{
  Match, State, Slot, proposed, propose, await_parties, claim_party_preview, release_party_preview,
  mark_party_preview_sent, note_consent_evidence, record_party_decision, party_key, slot_sent,
  sent_slot,
}
use yente.Store.Matches.Introductions.{
  decide, claim_introduction, mark_introduced, fail_introduction, release_stranded, requeue_sending,
  hurry_confirmed, drop_stranded,
}
use yente.Store.Matches.Runs.{
  Call, proposes, awaits, claims_letter, releases_letter, sent_letter, notes, answers, rules,
  claims, introduces, fails, boots_letters, boots_sending, boots_waiting, call, is_ruling,
  some_ruling, run,
}

abbrev pub is_proposed : State → Bool
is_proposed proposed = true
is_proposed _ = false

-- Past the proposal, with the letter to `key` on file as sent.
abbrev pub Sent : Text → Match → Type 0
Sent key m = (is_proposed m.state ≡ false) × (slot_sent (lookup key m.previews) ≡ true)

abbrev pub SentRow : Text → Option Match → Type 0
SentRow key none = Bool.true ≡ false
SentRow key (some m) = Sent key m

lookup-drop_stranded :
    (k : Text) (l : List (Text × Slot))
    → slot_sent (lookup k l) ≡ true
    → slot_sent (lookup k (drop_stranded l)) ≡ true
unfolding lookup drop_stranded
lookup-drop_stranded k [] h = h
lookup-drop_stranded k ((a, s) ∷ l) h = ground (arith, lookup-drop_stranded k l)

call-Sent :
    (c : Call) (key : Text) (m : Match)
    → is_ruling c ≡ false
    → Sent key m
    → SentRow key (row_after (some m) (call c (some m)))
unfolding call propose await_parties claim_party_preview release_party_preview
    mark_party_preview_sent note_consent_evidence record_party_decision decide claim_introduction
    mark_introduced fail_introduction release_stranded requeue_sending hurry_confirmed
call-Sent (proposes p) key m n h = ground arith
call-Sent (awaits by at) key m n h = ground arith
call-Sent (claims_letter address at) key m n h = ground (
  arith,
  same_iff (party_key address) key,
  lookup-insert (party_key address) key (record { claimed_at = some at; sent_at = none })
      m.previews,
)
call-Sent (releases_letter address) key m n h =
    ground
      (arith, same_iff (party_key address) key, lookup-remove (party_key address) key m.previews)
call-Sent (sent_letter address at) key m n h = ground (
  arith,
  same_iff (party_key address) key,
  lookup-insert (party_key address) key (sent_slot (lookup (party_key address) m.previews) at)
      m.previews,
)
call-Sent (notes id) key m n h = ground arith
call-Sent (answers address d) key m n h = ground arith
call-Sent (rules s by at why) key m n h = ground arith
call-Sent (claims at) key m n h = ground arith
call-Sent (introduces at id) key m n h = ground arith
call-Sent (fails at error) key m n h = ground arith
call-Sent boots_letters key m n h = ground (arith, lookup-drop_stranded key m.previews)
call-Sent (boots_sending at) key m n h = ground arith
call-Sent (boots_waiting at) key m n h = ground arith

run-Sent :
    (cs : List Call) (key : Text) (row : Option Match)
    → some_ruling cs ≡ false
    → SentRow key row
    → SentRow key (run row cs)
unfolding run some_ruling
run-Sent [] key row n h = h
run-Sent (c ∷ cs) key none n h = absurd (ground arith)
run-Sent (c ∷ cs) key (some m) n h =
    run-Sent cs key (row_after (some m) (call c (some m))) (ground arith)
      (call-Sent c key m (ground arith) h)

claim_refused :
    (row : Option Match) (address : Text) (at : ℕ)
    → SentRow (party_key address) row
    → claim_party_preview address at row ≡ null
unfolding claim_party_preview
claim_refused none address at h = refl
claim_refused (some m) address at h = ground arith

marked :
    (m : Match) (address : Text) (at : ℕ)
    → is_proposed m.state ≡ false
    → SentRow (party_key address) (row_after (some m) (mark_party_preview_sent address at (some m)))
unfolding mark_party_preview_sent
marked m address at h = ground (
  arith,
  same_refl (party_key address),
  lookup-insert (party_key address) (party_key address)
      (sent_slot (lookup (party_key address) m.previews) at) m.previews,
)

-- Once a letter is marked sent on a match past its proposal, no claim of a letter to the same address,
-- in whatever case it is written, ever succeeds again: not after the letter is released, after a
-- restart or after any other calls but a ruling of the operator.
pub letter_once :
    (m : Match) (address again : Text) (at later : ℕ) (cs : List Call)
    → is_proposed m.state ≡ false
    → party_key again ≡ party_key address
    → some_ruling cs ≡ false
    → claim_party_preview again later
        (run (row_after (some m) (mark_party_preview_sent address at (some m))) cs)
      ≡ null
letter_once m address again at later cs past e n = claim_refused _ again later (
    subst
      (λ k. SentRow k (run (row_after (some m) (mark_party_preview_sent address at (some m))) cs))
      (sym e) (run-Sent cs (party_key address) _ n (marked m address at past)))
