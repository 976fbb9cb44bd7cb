-- ===== src/Store/Observations/Projection.antt =====
-- What the view of a subject holds.
use yente.Prelude.{
  Text, ◌≡◌, ◌≤◌, ◌<◌, refl, sym, ◌∙◌, ◌⊎◌, inl, inr, Bool, false, Option, none, some, List, [],
  ◌∷◌, arith, same, same_iff, same_refl, lookup, lookup-insert, Bool-cases, subst,
}
use yente.Store.Observations.{
  Observation, claim_key, is_better, keep_over, keep_best, fold_rows, superseded, live_rows,
  for_subject, project,
}

-- `o` counts for no more than `h`: less authority, or the same and no later.
abbrev pub Yields : Observation → Observation → Type 0
Yields o h =
    (o.authority < h.authority) ⊎ ((o.authority ≡ h.authority) × (o.observed_at ≤ h.observed_at))

unfoldable pub IsIn : Observation → List Observation → Type 0
IsIn o [] = Bool.true ≡ false
IsIn o (x ∷ xs) = (o ≡ x) ⊎ IsIn o xs

abbrev pub Covers : List (Text × Observation) → Text → Observation → Type 0
Covers view k o = (h : Observation) × (lookup k view ≡ some h) × Yields o h

keep_over-Covers_self :
    (row : Option Observation) (o : Observation) (view : List (Text × Observation))
    → lookup (claim_key o) view ≡ row
    → Covers (keep_over row o view) (claim_key o) o
keep_over-Covers_self none o view e = (
  o,
  lookup-insert (claim_key o) (claim_key o) o view ∙ ground (arith, same_refl (claim_key o)),
  ground arith,
)
keep_over-Covers_self (some held) o view e = elim (Bool-cases (is_better o held)) [
  | inl b ↦ (
    o,
    ground (arith, same_refl (claim_key o), lookup-insert (claim_key o) (claim_key o) o view),
    ground arith,
  )
  | inr b ↦ (held, ground arith, ground arith)
]

keep_over-Covers :
    (row : Option Observation) (o x : Observation) (view : List (Text × Observation)) (k : Text)
    → lookup (claim_key o) view ≡ row
    → Covers view k x
    → Covers (keep_over row o view) k x
keep_over-Covers none o x view k e (h, found, y) =
    (h, ground (arith, lookup-insert (claim_key o) k o view, same_iff (claim_key o) k), y)
keep_over-Covers (some held) o x view k e (h, found, y) = elim (Bool-cases (is_better o held)) [
  | inr b ↦ (h, ground arith, y)
  | inl b ↦ elim (Bool-cases (same (claim_key o) k)) [
    | inr d ↦ (h, ground (arith, lookup-insert (claim_key o) k o view), y)
    | inl d ↦ (
      o,
      ground (arith, lookup-insert (claim_key o) k o view),
      ground (arith, same_iff (claim_key o) k),
    )
  ]
]

fold_rows-Covers :
    (rows : List Observation) (view : List (Text × Observation)) (k : Text) (x : Observation)
    → Covers view k x
    → Covers (fold_rows view rows) k x
unfolding fold_rows keep_best
fold_rows-Covers [] view k x h = h
fold_rows-Covers (o ∷ rest) view k x h =
    fold_rows-Covers rest (keep_over (lookup (claim_key o) view) o view) k x
      (keep_over-Covers (lookup (claim_key o) view) o x view k refl h)

fold_rows-Covers_all :
    (rows : List Observation) (view : List (Text × Observation)) (x : Observation)
    → IsIn x rows
    → Covers (fold_rows view rows) (claim_key x) x
unfolding fold_rows keep_best IsIn
fold_rows-Covers_all [] view x h = absurd (ground arith)
fold_rows-Covers_all (o ∷ rest) view x (inl e) =
    fold_rows-Covers rest (keep_over (lookup (claim_key o) view) o view) (claim_key x) x (
      subst (λ y. Covers (keep_over (lookup (claim_key o) view) o view) (claim_key y) y) (sym e)
        (keep_over-Covers_self (lookup (claim_key o) view) o view refl))
fold_rows-Covers_all (o ∷ rest) view x (inr h) =
    fold_rows-Covers_all rest (keep_over (lookup (claim_key o) view) o view) x h

-- A row of the view is one of the rows, under its own key.
abbrev pub Stems : List Observation → Text → Observation → Type 0
Stems rows k h = IsIn h rows × (claim_key h ≡ k)

from_view :
    (row : Option Observation) (o h : Observation) (view : List (Text × Observation)) (k : Text)
    → lookup k (keep_over row o view) ≡ some h
    → (lookup k view ≡ some h) ⊎ ((h ≡ o) × (claim_key h ≡ k))
from_view none o h view k e =
    ground (arith, lookup-insert (claim_key o) k o view, same_iff (claim_key o) k)
from_view (some held) o h view k e =
    ground (arith, lookup-insert (claim_key o) k o view, same_iff (claim_key o) k)

fold_rows-Stems :
    (rows : List Observation) (view : List (Text × Observation)) (k : Text) (h : Observation)
    → lookup k (fold_rows view rows) ≡ some h
    → (lookup k view ≡ some h) ⊎ Stems rows k h
unfolding fold_rows keep_best IsIn
fold_rows-Stems [] view k h e = inl e
fold_rows-Stems (o ∷ rest) view k h e =
    elim (fold_rows-Stems rest (keep_over (lookup (claim_key o) view) o view) k h e) [
      | inr (i, c) ↦ inr (inr i, c)
      | inl f ↦ elim (from_view (lookup (claim_key o) view) o h view k f) [
        | inl g ↦ inl g
        | inr (same_row, c) ↦ inr (inl same_row, c)
      ]
    ]

abbrev pub live_of : Text → List Observation → List Observation
live_of subject rows = live_rows (superseded (for_subject subject rows)) (for_subject subject rows)

-- The view of a subject holds, under each key, one of its live claims with this key; and under the key
-- of each live claim one that has more authority, or the same and is as recent, so no later model
-- run displaces a correction.
pub project-Covers :
    (subject : Text) (rows : List Observation)
    → ((x : Observation)
        → IsIn x (live_of subject rows)
        → Covers (project subject rows) (claim_key x) x)
      × ((k : Text) (h : Observation)
          → lookup k (project subject rows) ≡ some h
          → Stems (live_of subject rows) k h)
unfolding project lookup
project-Covers subject rows = (
  (λ x i. fold_rows-Covers_all (live_of subject rows) [] x i),
  (λ k h e. elim (fold_rows-Stems (live_of subject rows) [] k h e) [
    | inl f ↦ absurd (ground arith)
    | inr s ↦ s
  ]),
)
