-- ===== src/Domain/Matching/Tests.antt =====
-- A profile and a match, at concrete inputs.
use yente.Prelude.{Text, ◌≡◌, refl, ◌↔◌, true, some, [], ◌∷◌, codes, same, includes}
use yente.Domain.Qualification.{
  Value, text, array, object, no_field, field, read_path, read_keys, split_path, get_field,
  is_present, is_evidenced, missing_fields, unevidenced_fields, blockers, evaluate_qualification,
}
use yente.Domain.Qualification
use yente.Domain.Qualification.Qualified.{Answers, evaluate_qualification-Answers}
use yente.Domain.Matching.{
  Rule, Policy, Input, Match, Row, evaluate_rule, evaluate_rules, score_direction, evaluate_match,
  canonical_values, sort_texts, put_text, text_leb, without_repeats, shared, total, is_resolved,
  gate_blockers, all_blockers, match_of,
}
use yente.Domain.Matching.Eligible.{IsEligible, evaluate_match-IsEligible}

abbrev ada : Value
ada = object (
    field (codes "id") (text (codes "m1")) (
      field (codes "inboundEstablishedAt") (text (codes "2026")) (
        field (codes "state") (text (codes "QUALIFIED")) (
          field (codes "work")
            (object (
              field (codes "skills") (array (codes "rust" ∷ codes "go" ∷ codes "go" ∷ []))
                no_field))
            (field (codes "evidenceByField")
              (object (field (codes "work.skills") (array (codes "e1" ∷ [])) no_field))
              no_field)))))

abbrev profile_policy : Qualification.Policy
profile_policy = record {
  id = codes "p";
  version = codes "1";
  allowed_states = some (codes "QUALIFIED" ∷ []);
  required_fields = codes "work.skills" ∷ [];
}

ada_qualifies : (evaluate_qualification ada profile_policy).qualified ≡ true
unfolding evaluate_qualification missing_fields unevidenced_fields blockers is_present is_evidenced
    read_path read_keys split_path get_field same includes
ada_qualifies = refl

evaluate_qualification-Answers_example :
    ((evaluate_qualification ada profile_policy).qualified ≡ true) ↔ Answers ada profile_policy
evaluate_qualification-Answers_example = evaluate_qualification-Answers ada profile_policy

abbrev skills : Rule
skills = record {
  id = codes "skills";
  operator = codes "overlap";
  member_path = codes "work.skills";
  opportunity_path = codes "needs";
  weight = 3;
}

abbrev role : Value
role = object (
    field (codes "id") (text (codes "o1")) (
      field (codes "inboundEstablishedAt") (text (codes "2026"))
        (field (codes "needs") (array (codes "c" ∷ codes "rust" ∷ [])) no_field)))

abbrev policy : Policy
policy = record {
  id = codes "p";
  version = codes "1";
  hard_gates = skills ∷ [];
  member_rules = skills ∷ [];
  opportunity_rules = skills ∷ [];
  member_threshold = 3;
  opportunity_threshold = 2;
}

abbrev input : Input
input = record {
  member = ada;
  opportunity = role;
  member_qualified = some true;
  opportunity_qualified = some true;
  policy = policy;
  cycle = codes "default";
  prior_matches = [];
}

abbrev hash : Text → Text
hash t = t

abbrev row : Row
row = record {
  id = codes "skills";
  passed = true;
  matched_values = codes "rust" ∷ [];
  contribution = 3;
}

abbrev result : Match
result =
    match_of hash input (row ∷ [])
      (record { score = 3; threshold = 3; passed = true; breakdown = row ∷ [] })
      (record { score = 3; threshold = 2; passed = true; breakdown = row ∷ [] })

evaluate_match-IsEligible_example : (result.eligible ≡ true) ↔ IsEligible hash input result
unfolding evaluate_match evaluate_rules evaluate_rule score_direction canonical_values sort_texts
    put_text text_leb without_repeats shared total read_path read_keys split_path get_field same
    includes
evaluate_match-IsEligible_example = evaluate_match-IsEligible hash input result refl

result_eligible : result.eligible ≡ true
unfolding all_blockers gate_blockers is_resolved get_field same
result_eligible = refl
