-- ===== src/Store/Matches/Collection.antt =====
-- src/store/graph.js: GraphMatchRepository on its collection, `graph_matches`.
use yente.Prelude.{
  Text, ℕ, ◌+◌, ◌≡◌, refl, sym, ◌∙◌, ap, ◌↔◌, Bool, true, false, Option, none, some, List, [], ◌∷◌,
  ◌++◌, lookup, same, same_iff, if◌then◌else◌, arith,
}
use yente.Store.Cells.{Engine, written, row_after, edit, sweep, hits, select}
use yente.Store.Cells.Laws.{get-edit, get-sweep, lookup-query, kept_by}
use yente.Store.Matches.{Match, introduction_sending, given, propose}
use yente.Store.Matches.Introductions.{
  claim_introduction, release_stranded, requeue_sending, hurry_confirmed, is_confirmed_ready,
}
use yente.Store.Matches.Runs.{
  Call, proposes, awaits, claims_letter, releases_letter, sent_letter, notes, answers, rules,
  claims, introduces, fails, boots_letters, boots_sending, boots_waiting, call, run,
}

step_on :
    (b : Bool) (c : Call) (row : Option Match) (cs : List Call)
    → run (if b then row_after row (call c row) else row) cs ≡ run row (if b then c ∷ cs else cs)
unfolding run
step_on true c row cs = refl
step_on false c row cs = refl

abbrev taken : ℕ → Match → Match
taken at m = record m {
  state = introduction_sending;
  introduction_attempts = some (given m.introduction_attempts 0 + 1);
  introduction_started_at = some at;
  updated_at = at;
}

ready_claim :
    (at : ℕ) (m : Match) (row : Option Match)
    → kept_by (is_confirmed_ready at) row ≡ some m
    → (row ≡ some m) × ((n : Match) × (claim_introduction at (some m) ≡ written n))
unfolding is_confirmed_ready claim_introduction
ready_claim at m none h = absurd (ground arith)
ready_claim at m (some k) h = (ground arith, (taken at m, ground arith))

claim_ready :
    (at : ℕ) (m n : Match)
    → claim_introduction at (some m) ≡ written n
    → kept_by (is_confirmed_ready at) (some m) ≡ some m
unfolding is_confirmed_ready claim_introduction
claim_ready at m n h = ground arith

module _ {Db : Type 0} (e : Engine Match Db) (digest : Text → Text) where
  -- The seeker, the offerer and the type, in this order, with the control
  -- character US between them.
  unfoldable pub match_pair_key : Text → Text → Text → Text
  match_pair_key seeker offerer match_type =
      digest (seeker ++ (31 ∷ (offerer ++ (31 ∷ match_type))))

  -- A call on the match with an id; a proposal finds its own id, and a restart sweeps all matches.
  unfoldable pub act : Db → Text × Call → Db
  act db (id, proposes p) = edit e db (match_pair_key p.seeker p.offerer p.match_type) (propose p)
  act db (id, boots_letters) = sweep e db release_stranded db (e.ids db)
  act db (id, boots_sending at) = sweep e db (requeue_sending at) db (e.ids db)
  act db (id, boots_waiting at) = sweep e db (hurry_confirmed at) db (e.ids db)
  act db (id, c) = edit e db id (call c)

  -- `releaseStrandedPartyPreviews`
  abbrev pub release_stranded_party_previews : Db → Db
  release_stranded_party_previews db = act db ([], boots_letters)

  -- `requeueStrandedIntroductions`: the second loop queries again after the first.
  unfoldable pub requeue_stranded_introductions : Db → ℕ → Db × ℕ
  requeue_stranded_introductions db at =
      let again = act db ([], boots_sending at) in
      (
        act again ([], boots_waiting at),
        hits e db (requeue_sending at) (e.ids db) + hits e again (hurry_confirmed at) (e.ids again),
      )

  unfoldable pub confirmed_ready : Db → ℕ → List (Text × Match)
  confirmed_ready db at = select e db (is_confirmed_ready at) (e.ids db)

  abbrev pub concerns : Text × Call → Text → Bool
  concerns (id, proposes p) j = same (match_pair_key p.seeker p.offerer p.match_type) j
  concerns (id, boots_letters) j = true
  concerns (id, boots_sending at) j = true
  concerns (id, boots_waiting at) j = true
  concerns (id, c) j = same id j

  -- A call acts on each row that it concerns as on a row alone, and on no other.
  pub get-act :
      (db : Db) (id : Text) (c : Call) (j : Text)
      → e.get (act db (id, c)) j
        ≡ (if concerns (id, c) j then row_after (e.get db j) (call c (e.get db j)) else e.get db j)
  unfolding act call
  get-act db id (proposes p) j = ground (
    arith,
    get-edit e db (match_pair_key p.seeker p.offerer p.match_type) j (propose p),
    same_iff (match_pair_key p.seeker p.offerer p.match_type) j,
  )
  get-act db id (awaits by at) j =
      ground (arith, get-edit e db id j (call (awaits by at)), same_iff id j)
  get-act db id (claims_letter a at) j =
      ground (arith, get-edit e db id j (call (claims_letter a at)), same_iff id j)
  get-act db id (releases_letter a) j =
      ground (arith, get-edit e db id j (call (releases_letter a)), same_iff id j)
  get-act db id (sent_letter a at) j =
      ground (arith, get-edit e db id j (call (sent_letter a at)), same_iff id j)
  get-act db id (notes x) j = ground (arith, get-edit e db id j (call (notes x)), same_iff id j)
  get-act db id (answers a d) j =
      ground (arith, get-edit e db id j (call (answers a d)), same_iff id j)
  get-act db id (rules s by at why) j =
      ground (arith, get-edit e db id j (call (rules s by at why)), same_iff id j)
  get-act db id (claims at) j = ground (arith, get-edit e db id j (call (claims at)), same_iff id j)
  get-act db id (introduces at m) j =
      ground (arith, get-edit e db id j (call (introduces at m)), same_iff id j)
  get-act db id (fails at x) j =
      ground (arith, get-edit e db id j (call (fails at x)), same_iff id j)
  get-act db id boots_letters j = ground (arith, get-sweep e db release_stranded j)
  get-act db id (boots_sending at) j = ground (arith, get-sweep e db (requeue_sending at) j)
  get-act db id (boots_waiting at) j = ground (arith, get-sweep e db (hurry_confirmed at) j)

  unfoldable pub act_all : Db → List (Text × Call) → Db
  act_all db [] = db
  act_all db (a ∷ rest) = act_all (act db a) rest

  -- The calls that concern one row.
  unfoldable pub calls_on : Text → List (Text × Call) → List Call
  calls_on j [] = []
  calls_on j ((id, c) ∷ rest) =
      let others = calls_on j rest in if concerns (id, c) j then c ∷ others else others

  -- After any calls on a collection, each row is what the calls that concern it make of that row
  -- alone: matches do not interfere.
  pub get-act_all :
      (db : Db) (calls : List (Text × Call)) (j : Text)
      → e.get (act_all db calls) j ≡ run (e.get db j) (calls_on j calls)
  unfolding act_all calls_on run
  get-act_all db [] j = refl
  get-act_all db ((id, c) ∷ rest) j =
      get-act_all (act db (id, c)) rest j
      ∙ ap (λ row. run row (calls_on j rest)) (get-act db id c j)
      ∙ step_on (concerns (id, c) j) c (e.get db j) (calls_on j rest)

  -- The list of matches that are ready holds a match under its id exactly when a claim of its
  -- introduction at that time succeeds.
  pub confirmed_ready-claim_introduction :
      (db : Db) (at : ℕ) (j : Text) (m : Match)
      → (lookup j (confirmed_ready db at) ≡ some m)
        ↔ ((e.get db j ≡ some m) × ((n : Match) × (claim_introduction at (some m) ≡ written n)))
  unfolding confirmed_ready
  confirmed_ready-claim_introduction db at j m = (
    (λ h. ready_claim at m (e.get db j) (sym (lookup-query e db (is_confirmed_ready at) j) ∙ h)),
    (λ (g, (n, c)).
        lookup-query e db (is_confirmed_ready at) j
        ∙ ap (kept_by (is_confirmed_ready at)) g
        ∙ claim_ready at m n c),
  )
