-- ===== src/Store/Observations/Tests.antt =====
-- Two claims, at concrete inputs.
use yente.Prelude.{
  Text, ℕ, ◌≡◌, refl, Option, none, some, List, [], ◌∷◌, codes, lookup, insert, same,
}
use yente.Store.Observations.{
  Observation, user_correction, model_verified, claim_key, project, for_subject, live_rows,
  superseded, fold_rows, keep_best,
}

abbrev claim : ℕ → ℕ → Option Text → Observation
claim authority at supersedes = record {
  id = none;
  subject = codes "ada";
  predicate = codes "city";
  object = some (codes "Paris");
  authority = authority;
  observed_at = at;
  supersedes = supersedes;
}

abbrev claims : List Observation
claims = claim user_correction 1 (some (codes "old")) ∷ claim model_verified 2 none ∷ []

correction_stays :
    lookup (claim_key (claim 0 0 none)) (project (codes "ada") claims)
    ≡ some (claim user_correction 1 (some (codes "old")))
unfolding project for_subject live_rows superseded fold_rows keep_best lookup insert same
correction_stays = refl
