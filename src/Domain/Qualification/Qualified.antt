-- ===== src/Domain/Qualification/Qualified.antt =====
-- What a qualification means.
use yente.Prelude.{Text, ◌≡◌, refl, ◌↔◌, true, false, List, [], ◌∷◌, codes, arith}
use yente.Domain.Qualification.{
  Value, Policy, read_path, is_present, is_truthy, is_terminal_state, is_allowed, get_key, blockers,
  is_evidenced, missing_fields, unevidenced_fields, evaluate_qualification,
}

-- Every required field is present and has evidence.
unfoldable pub AllEvidenced : Value → List Text → Type 0
AllEvidenced profile [] = Unit {0}
AllEvidenced profile (path ∷ paths) =
    (is_present (read_path profile path) ≡ true)
    × (is_evidenced profile path ≡ true)
    × AllEvidenced profile paths

-- What a policy asks of a profile.
pub record Answers (profile : Value) (policy : Policy) : Type 0 where
  pub has_id : is_truthy (get_key profile (codes "id")) ≡ true
  pub wrote_in : is_truthy (get_key profile (codes "inboundEstablishedAt")) ≡ true
  pub not_terminal : is_terminal_state (get_key profile (codes "state")) ≡ false
  pub allowed : is_allowed policy.allowed_states (get_key profile (codes "state")) ≡ true
  pub evidenced : AllEvidenced profile policy.required_fields

fields_iff :
    (profile : Value) (paths : List Text)
    → ((missing_fields profile paths ≡ []) × (unevidenced_fields profile paths ≡ []))
      ↔ AllEvidenced profile paths
unfolding missing_fields unevidenced_fields AllEvidenced
fields_iff profile [] = ((λ h. tt), (λ h. (refl, refl)))
fields_iff profile (path ∷ paths) = (
  (λ h. ground (arith, fields_iff profile paths)),
  (λ h. ground (arith, fields_iff profile paths)),
)

blockers_iff :
    (profile : Value) (policy : Policy)
    → (blockers profile policy ≡ []) ↔ (
        (is_truthy (get_key profile (codes "id")) ≡ true)
        × (is_truthy (get_key profile (codes "inboundEstablishedAt")) ≡ true)
        × (is_terminal_state (get_key profile (codes "state")) ≡ false)
        × (is_allowed policy.allowed_states (get_key profile (codes "state")) ≡ true))
unfolding blockers
blockers_iff profile policy = ((λ h. ground arith), (λ h. ground arith))

-- A profile qualifies exactly if it has an id and an inbound relationship, is in no terminal state and
-- in one that the policy allows, and every required field is present and has evidence.
pub evaluate_qualification-Answers :
    (profile : Value) (policy : Policy)
    → ((evaluate_qualification profile policy).qualified ≡ true) ↔ Answers profile policy
unfolding evaluate_qualification
evaluate_qualification-Answers profile policy = (
  (λ h. ground (arith, blockers_iff profile policy, fields_iff profile policy.required_fields)),
  (λ h. ground (arith, blockers_iff profile policy, fields_iff profile policy.required_fields)),
)
