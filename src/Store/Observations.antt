-- ===== src/Store/Observations.antt =====
-- src/store/graph.js: ObservationRepository.project, the current view of a subject that its claims are
-- folded into. `id` is the field that a row carries under this name. A time is its milliseconds since
-- 1970, in the order of the ISO texts that the source compares.
pub mod Projection
mod Tests
use yente.Prelude.{
  Text, ℕ, Bool, true, false, not, ◌&&◌, ◌||◌, Option, none, some, List, [], ◌∷◌, ◌++◌, same,
  includes, lookup, insert, if◌then◌else◌, ltb, ◌==◌, truthy,
}

pub record Observation : Type 0 where
  pub id : Option Text
  pub subject : Text
  pub predicate : Text
  pub object : Option Text
  pub authority : ℕ
  pub observed_at : ℕ
  pub supersedes : Option Text

-- AUTHORITY
abbrev pub user_correction : ℕ
user_correction = 400

abbrev pub deterministic : ℕ
deterministic = 300

abbrev pub model_verified : ℕ
model_verified = 200

-- `rows.map((row) => row.supersedes).filter(Boolean)`
abbrev add_some : Option Text → List Text → List Text
add_some none l = l
add_some (some []) l = l
add_some (some (c ∷ cs)) l = (c ∷ cs) ∷ l

unfoldable pub superseded : List Observation → List Text
superseded [] = []
superseded (o ∷ rest) = add_some o.supersedes (superseded rest)

-- `!superseded.has(row.id ?? null)`
abbrev pub is_live : List Text → Option Text → Bool
is_live gone none = true
is_live gone (some id) = not (includes id gone)

unfoldable pub live_rows : List Text → List Observation → List Observation
live_rows gone [] = []
live_rows gone (o ∷ rest) =
    let others = live_rows gone rest in if is_live gone o.id then o ∷ others else others

abbrev object_text : Option Text → Text
object_text none = []
object_text (some t) = t

-- The predicate and the object, with the control character US between them.
abbrev pub claim_key : Observation → Text
claim_key o = o.predicate ++ (31 ∷ object_text o.object)

-- Authority first, then recency.
abbrev pub is_better : Observation → Observation → Bool
is_better o held =
    ltb held.authority o.authority
    || (o.authority == held.authority && ltb held.observed_at o.observed_at)

abbrev pub keep_over :
    Option Observation → Observation → List (Text × Observation) → List (Text × Observation)
keep_over none o view = insert (claim_key o) o view
keep_over (some held) o view = if is_better o held then insert (claim_key o) o view else view

unfoldable pub keep_best : Observation → List (Text × Observation) → List (Text × Observation)
keep_best o view = keep_over (lookup (claim_key o) view) o view

unfoldable pub fold_rows : List (Text × Observation) → List Observation → List (Text × Observation)
fold_rows view [] = view
fold_rows view (o ∷ rest) = fold_rows (keep_best o view) rest

-- `forSubject`, among all rows of the collection.
unfoldable pub for_subject : Text → List Observation → List Observation
for_subject subject [] = []
for_subject subject (o ∷ rest) =
    let others = for_subject subject rest in if same o.subject subject then o ∷ others else others

-- The view of a subject, each claim under its key.
unfoldable pub project : Text → List Observation → List (Text × Observation)
project subject rows =
    let own = for_subject subject rows in fold_rows [] (live_rows (superseded own) own)
