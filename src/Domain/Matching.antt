-- ===== src/Domain/Matching.antt =====
-- src/domain/matching.js: whether a member and an opportunity fit under a policy. The hash of a pair
-- is a package's, and a parameter. Weights and thresholds are natural numbers.
pub mod Eligible
pub mod Overlap
mod Tests
use yente.Prelude.{
  Text, ℕ, ◌+◌, Bool, true, false, not, ◌&&◌, ◌||◌, Option, none, some, List, [], ◌∷◌, ◌++◌, codes,
  if◌then◌else◌, map, ◌==◌, ltb, leb, same, includes, Result, ok, err, ◌>>=◌,
}
use yente.Domain.Qualification.{
  Value, absent, text, array, object, read_path, is_truthy, get_key, is_filled, is_empty_list,
}

-- `asValues(value).map(String)`
abbrev pub texts_of : Value → List Text
texts_of absent = []
texts_of (text t) = t ∷ []
texts_of (array l) = l
texts_of (object fields) = codes "[object Object]" ∷ []

-- `new Set(values)`, in the order in which they are first met.
unfoldable pub without_repeats : List Text → List Text → List Text
without_repeats seen [] = []
without_repeats seen (x ∷ xs) = elim (includes x seen) [
  | true ↦ without_repeats seen xs
  | false ↦ x ∷ without_repeats (x ∷ seen) xs
]

-- The order of texts by their codes.
unfoldable pub text_leb : Text → Text → Bool
text_leb [] b = true
text_leb (x ∷ xs) [] = false
text_leb (x ∷ xs) (y ∷ ys) = let rest = text_leb xs ys in if x == y then rest else ltb x y

unfoldable pub put_text : Text → List Text → List Text
put_text a [] = a ∷ []
put_text a (b ∷ rest) =
    let later = put_text a rest in if text_leb a b then a ∷ b ∷ rest else b ∷ later

unfoldable pub sort_texts : List Text → List Text
sort_texts [] = []
sort_texts (a ∷ rest) = put_text a (sort_texts rest)

unfoldable pub canonical_values : Value → List Text
canonical_values value = sort_texts (without_repeats [] (texts_of value))

pub record Rule : Type 0 where
  pub id : Text
  pub operator : Text
  pub member_path : Text
  pub opportunity_path : Text
  pub weight : ℕ

pub data Error : Type 0 where
  unsupported_operator : Text → Error

-- A rule with its outcome.
pub record Row : Type 0 where
  pub id : Text
  pub passed : Bool
  pub matched_values : List Text
  pub contribution : ℕ

-- `memberValues.filter((value) => opportunityValues.includes(value))`
unfoldable pub shared : List Text → List Text → List Text
shared [] others = []
shared (x ∷ xs) others = let rest = shared xs others in if includes x others then x ∷ rest else rest

-- Both sides have one value, the same.
abbrev pub single_match : List Text → List Text → List Text
single_match (x ∷ []) (y ∷ []) = if same x y then x ∷ [] else []
single_match _ _ = []

abbrev row_of : Rule → List Text → Row
row_of rule matched = record {
  id = rule.id;
  passed = is_filled matched;
  matched_values = matched;
  contribution = if is_filled matched then rule.weight else 0;
}

unfoldable pub evaluate_rule : Value → Value → Rule → Result Error Row
evaluate_rule member opportunity rule =
    let own = canonical_values (read_path member rule.member_path) in
    let other = canonical_values (read_path opportunity rule.opportunity_path) in
    if same rule.operator (codes "overlap")
    then ok (row_of rule (shared own other))
    else (if same rule.operator (codes "equals")
        then ok (row_of rule (single_match own other))
        else err (unsupported_operator rule.operator))

unfoldable pub evaluate_rules : Value → Value → List Rule → Result Error (List Row)
evaluate_rules member opportunity [] = ok []
evaluate_rules member opportunity (rule ∷ rules) = do
  row ← evaluate_rule member opportunity rule
  rows ← evaluate_rules member opportunity rules
  ok (row ∷ rows)

unfoldable pub total : List Row → ℕ
total [] = 0
total (row ∷ rows) = row.contribution + total rows

pub record Fit : Type 0 where
  pub score : ℕ
  pub threshold : ℕ
  pub passed : Bool
  pub breakdown : List Row

unfoldable pub score_direction : Value → Value → List Rule → ℕ → Result Error Fit
score_direction member opportunity rules threshold = do
  rows ← evaluate_rules member opportunity rules
  ok (record {
    score = total rows;
    threshold = threshold;
    passed = leb threshold (total rows);
    breakdown = rows;
  })

pub record Policy : Type 0 where
  pub id : Text
  pub version : Text
  pub hard_gates : List Rule
  pub member_rules : List Rule
  pub opportunity_rules : List Rule
  pub member_threshold : ℕ
  pub opportunity_threshold : ℕ

pub record Prior : Type 0 where
  pub idempotency_key : Text
  pub state : Text

pub record Input : Type 0 where
  pub member : Value
  pub opportunity : Value
  pub member_qualified : Option Bool
  pub opportunity_qualified : Option Bool
  pub policy : Policy
  pub cycle : Text
  pub prior_matches : List Prior

pub data Blocker : Type 0 where
  member_not_qualified opportunity_not_qualified member_not_inbound : Blocker
  opportunity_not_inbound pair_already_resolved_in_cycle : Blocker
  member_fit_below_threshold opportunity_fit_below_threshold : Blocker
  hard_gate : Text → Blocker

pub record Match : Type 0 where
  pub idempotency_key : Text
  pub eligible : Bool
  pub blockers : List Blocker
  pub hard_gates : List Row
  pub member_fit : Fit
  pub opportunity_fit : Fit

-- `qualification?.qualified`
abbrev pub is_qualified : Option Bool → Bool
is_qualified none = false
is_qualified (some b) = b

abbrev pub block_if : Bool → Blocker → List Blocker
block_if true b = b ∷ []
block_if false b = []

-- BLOCKING_PRIOR_STATES
abbrev blocking_prior_states : List Text
blocking_prior_states = codes "VETOED" ∷ codes "INTRODUCED" ∷ []

unfoldable pub is_resolved : Text → List Prior → Bool
is_resolved key [] = false
is_resolved key (p ∷ rest) =
    (same p.idempotency_key key && includes p.state blocking_prior_states) || is_resolved key rest

unfoldable pub gate_blockers : List Row → List Blocker
gate_blockers [] = []
gate_blockers (row ∷ rows) = block_if (not row.passed) (hard_gate row.id) ++ gate_blockers rows

abbrev id_text : Value → Text
id_text (text t) = t
id_text _ = []

module _ (digest : Text → Text) where
  unfoldable pub pair_key : Input → Text
  pair_key i = digest (
      i.policy.id
      ++ (31
          ∷ (i.policy.version
              ++ (31
                  ∷ (id_text (get_key i.member (codes "id"))
                      ++ (31
                          ∷ (id_text (get_key i.opportunity (codes "id")) ++ (31 ∷ i.cycle))))))))

  unfoldable pub all_blockers : Input → List Row → Fit → Fit → List Blocker
  all_blockers i gates member_fit opportunity_fit =
      block_if (not (is_qualified i.member_qualified)) member_not_qualified
      ++ (block_if (not (is_qualified i.opportunity_qualified)) opportunity_not_qualified
          ++ (block_if (not (is_truthy (get_key i.member (codes "inboundEstablishedAt"))))
                member_not_inbound
              ++ (block_if (not (is_truthy (get_key i.opportunity (codes "inboundEstablishedAt"))))
                    opportunity_not_inbound
                  ++ (block_if (is_resolved (pair_key i) i.prior_matches)
                        pair_already_resolved_in_cycle
                      ++ (gate_blockers gates
                          ++ (block_if (not member_fit.passed) member_fit_below_threshold
                              ++ block_if (not opportunity_fit.passed)
                                  opportunity_fit_below_threshold))))))

  abbrev pub match_of : Input → List Row → Fit → Fit → Match
  match_of i gates member_fit opportunity_fit = record {
    idempotency_key = pair_key i;
    eligible = is_empty_list (all_blockers i gates member_fit opportunity_fit);
    blockers = all_blockers i gates member_fit opportunity_fit;
    hard_gates = gates;
    member_fit = member_fit;
    opportunity_fit = opportunity_fit;
  }

  unfoldable pub evaluate_match : Input → Result Error Match
  evaluate_match i = do
    gates ← evaluate_rules i.member i.opportunity i.policy.hard_gates
    member_fit ←
        score_direction i.member i.opportunity i.policy.member_rules i.policy.member_threshold
    opportunity_fit ←
        score_direction i.member i.opportunity i.policy.opportunity_rules
          i.policy.opportunity_threshold
    ok (match_of i gates member_fit opportunity_fit)
