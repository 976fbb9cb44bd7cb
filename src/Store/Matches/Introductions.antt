-- ===== src/Store/Matches/Introductions.antt =====
-- src/store/graph.js: GraphMatchRepository from the operator's ruling to the introduction that was
-- sent, and what a new process does about a crash.
use yente.Prelude.{
  Text, ℕ, ◌+◌, ◌-◌, ◌*◌, ◌^◌, Bool, true, false, not, ◌&&◌, Option, none, some, is_some, List, [],
  ◌∷◌, leb, max_date, min, if◌then◌else◌, codes,
}
use yente.Store.Cells.{Outcome, null, written, thrown}
use yente.Store.Matches.{
  Match, State, Slot, awaiting_parties, confirmed, introduction_sending, introduced, given,
  or_given, on_held,
}

abbrev pub with_ruling : State → ℕ → Match → Match
with_ruling confirmed at held = record held {
  introduction_available_at = some at;
  introduction_attempts = some (given held.introduction_attempts 0);
  introduction_last_error = none;
}
with_ruling _ at held = held

unfoldable pub decide : State → Text → ℕ → Option Text → Option Match → Outcome Match
decide state by at note row = on_held row (λ held. written (
    with_ruling state at (record held {
      state = state;
      decided_at = some at;
      decided_by = some by;
      note = or_given note held.note;
      updated_at = at;
    })))

-- `!availableAt || String(availableAt) <= String(at)`
abbrev pub due : Option ℕ → ℕ → Bool
due none at = true
due (some available) at = leb available at

abbrev is_confirmed : State → Bool
is_confirmed confirmed = true
is_confirmed _ = false

-- The condition of `byState(CONFIRMED)` and the filter after it.
unfoldable pub is_confirmed_ready : ℕ → Match → Bool
is_confirmed_ready at m = is_confirmed m.state && due m.introduction_available_at at

abbrev claim_in : State → ℕ → Match → Outcome Match
claim_in confirmed at held =
    if due held.introduction_available_at at
    then written (record held {
      state = introduction_sending;
      introduction_attempts = some (given held.introduction_attempts 0 + 1);
      introduction_started_at = some at;
      updated_at = at;
    })
    else null
claim_in _ at held = null

unfoldable pub claim_introduction : ℕ → Option Match → Outcome Match
claim_introduction at row = on_held row (λ held. claim_in held.state at held)

abbrev introduced_in : State → ℕ → Text → Match → Outcome Match
introduced_in introduction_sending at message_id held = written (record held {
  state = introduced;
  introduction_message_id = some message_id;
  introduced_at = some at;
  introduction_last_error = none;
  updated_at = at;
})
introduced_in _ at message_id held = null

unfoldable pub mark_introduced : ℕ → Text → Option Match → Outcome Match
mark_introduced at message_id row =
    on_held row (λ held. introduced_in held.state at message_id held)

-- The wait after `attempts` failed introductions.
unfoldable pub wait_ms : ℕ → ℕ
wait_ms attempts = min 3600000 (60000 * 2 ^ (attempts - 1))

abbrev pub failed : ℕ → Text → Match → Match
failed at error held = record held {
  state = confirmed;
  introduction_available_at = some (at + wait_ms (given held.introduction_attempts 1));
  introduction_last_error = some error;
  introduction_last_error_at = some at;
  updated_at = at;
}

-- A time past the last date makes `toISOString` throw.
abbrev fail_in : State → ℕ → Text → Match → Outcome Match
fail_in introduction_sending at error held =
    if leb (at + wait_ms (given held.introduction_attempts 1)) max_date
    then written (failed at error held)
    else thrown
fail_in _ at error held = null

unfoldable pub fail_introduction : ℕ → Text → Option Match → Outcome Match
fail_introduction at error row = on_held row (λ held. fail_in held.state at error held)

-- `slot?.claimedAt && !slot?.sentAt`: a letter that a dead process had claimed.
abbrev pub stranded : Slot → Bool
stranded s = is_some s.claimed_at && not (is_some s.sent_at)

unfoldable pub drop_stranded : List (Text × Slot) → List (Text × Slot)
drop_stranded [] = []
drop_stranded ((a, s) ∷ slots) =
    let rest = drop_stranded slots in if stranded s then rest else (a, s) ∷ rest

unfoldable pub some_stranded : List (Text × Slot) → Bool
some_stranded [] = false
some_stranded ((a, s) ∷ slots) = let rest = some_stranded slots in if stranded s then true else rest

abbrev release_in : State → Match → Option Match
release_in awaiting_parties held =
    if some_stranded held.previews
    then some (record held { previews = drop_stranded held.previews })
    else none
release_in _ held = none

-- What `releaseStrandedPartyPreviews` writes for one row.
unfoldable pub release_stranded : Match → Option Match
release_stranded held = release_in held.state held

abbrev requeue_in : State → ℕ → Match → Option Match
requeue_in introduction_sending at m = some (record m {
  state = confirmed;
  introduction_available_at = some at;
  introduction_last_error = some (codes "requeued after restart");
  updated_at = at;
})
requeue_in _ at m = none

-- What the two loops of `requeueStrandedIntroductions` write for one row.
unfoldable pub requeue_sending : ℕ → Match → Option Match
requeue_sending at m = requeue_in m.state at m

abbrev hurry_in : State → ℕ → Match → Option Match
hurry_in confirmed at m =
    if due m.introduction_available_at at
    then none
    else some (record m { introduction_available_at = some at; updated_at = at })
hurry_in _ at m = none

unfoldable pub hurry_confirmed : ℕ → Match → Option Match
hurry_confirmed at m = hurry_in m.state at m
