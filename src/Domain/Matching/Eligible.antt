-- ===== src/Domain/Matching/Eligible.antt =====
-- What makes a match eligible, and what a rule that overlaps means.
use yente.Prelude.{
  Text, ℕ, ◌≡◌, ◌≤◌, refl, ap, ◌↔◌, true, false, List, [], ◌∷◌, codes, arith, Result, ok, err,
  bind_ok, subst, leb,
}
use yente.Domain.Qualification.{is_truthy, get_key}
use yente.Domain.Matching.{
  Input, Rule, Row, Fit, Match, Error, evaluate_rules, score_direction, total, is_qualified,
  is_resolved, gate_blockers, pair_key, all_blockers, match_of, evaluate_match,
}

unfoldable pub AllPassed : List Row → Type 0
AllPassed [] = Unit {0}
AllPassed (row ∷ rows) = (row.passed ≡ true) × AllPassed rows

gates_iff : (rows : List Row) → (gate_blockers rows ≡ []) ↔ AllPassed rows
unfolding gate_blockers AllPassed
gates_iff [] = ((λ h. tt), (λ h. refl))
gates_iff (row ∷ rows) =
    ((λ h. ground (arith, gates_iff rows)), (λ h. ground (arith, gates_iff rows)))

-- The rules of a direction reach its threshold.
pub record IsFitting (i : Input) (rules : List Rule) (threshold : ℕ) (fit : Fit) : Type 0 where
  pub rows_of : evaluate_rules i.member i.opportunity rules ≡ ok fit.breakdown
  pub reaches : threshold ≤ total fit.breakdown

abbrev match_in : Match → Result Error Match → Match
match_in old (ok m) = m
match_in old (err e) = old

module _ (digest : Text → Text) where
  pub record IsEligible (i : Input) (m : Match) : Type 0 where
    pub member_qualified : is_qualified i.member_qualified ≡ true
    pub opportunity_qualified : is_qualified i.opportunity_qualified ≡ true
    pub member_inbound : is_truthy (get_key i.member (codes "inboundEstablishedAt")) ≡ true
    pub opportunity_inbound :
        is_truthy (get_key i.opportunity (codes "inboundEstablishedAt")) ≡ true
    pub unresolved : is_resolved (pair_key digest i) i.prior_matches ≡ false
    pub gates_of : evaluate_rules i.member i.opportunity i.policy.hard_gates ≡ ok m.hard_gates
    pub gates_passed : AllPassed m.hard_gates
    pub member_fits : IsFitting i i.policy.member_rules i.policy.member_threshold m.member_fit
    pub opportunity_fits :
        IsFitting i i.policy.opportunity_rules i.policy.opportunity_threshold m.opportunity_fit

  score_direction_cases :
      (i : Input) (rules : List Rule) (threshold : ℕ) (fit : Fit)
      → score_direction i.member i.opportunity rules threshold ≡ ok fit
      → (evaluate_rules i.member i.opportunity rules ≡ ok fit.breakdown)
        × (fit.passed ≡ leb threshold (total fit.breakdown))
  unfolding score_direction
  score_direction_cases i rules threshold fit e = ground arith

  eligible_iff :
      (i : Input) (gates : List Row) (mf of_fit : Fit)
      → evaluate_rules i.member i.opportunity i.policy.hard_gates ≡ ok gates
      → score_direction i.member i.opportunity i.policy.member_rules i.policy.member_threshold
        ≡ ok mf
      → score_direction i.member i.opportunity i.policy.opportunity_rules
          i.policy.opportunity_threshold
        ≡ ok of_fit
      → ((match_of digest i gates mf of_fit).eligible ≡ true)
        ↔ IsEligible i (match_of digest i gates mf of_fit)
  unfolding all_blockers
  eligible_iff i gates mf of_fit g m o = (
    (λ h. ground (
      arith,
      gates_iff gates,
      score_direction_cases i i.policy.member_rules i.policy.member_threshold mf m,
      score_direction_cases i i.policy.opportunity_rules i.policy.opportunity_threshold of_fit o,
    )),
    (λ h. ground (
      arith,
      gates_iff gates,
      score_direction_cases i i.policy.member_rules i.policy.member_threshold mf m,
      score_direction_cases i i.policy.opportunity_rules i.policy.opportunity_threshold of_fit o,
    )),
  )

  -- A match that was evaluated is eligible exactly if both sides are qualified and wrote in, the pair was
  -- not resolved in this cycle, every hard gate passes, and in each direction the weights of the rules
  -- that pass reach the threshold.
  pub evaluate_match-IsEligible :
      (i : Input) (m : Match)
      → evaluate_match digest i ≡ ok m
      → (m.eligible ≡ true) ↔ IsEligible i m
  unfolding evaluate_match
  evaluate_match-IsEligible i m e =
      bind_ok (evaluate_rules i.member i.opportunity i.policy.hard_gates) _ e λ gates g e₁.
        bind_ok
          (score_direction i.member i.opportunity i.policy.member_rules i.policy.member_threshold) _
          e₁
          λ mf h e₂.
            bind_ok
              (score_direction i.member i.opportunity i.policy.opportunity_rules
                i.policy.opportunity_threshold)
              _ e₂
              λ of_fit k e₃.
                subst (λ x. (x.eligible ≡ true) ↔ IsEligible i x) (ap (match_in m) e₃)
                  (eligible_iff i gates mf of_fit g h k)
