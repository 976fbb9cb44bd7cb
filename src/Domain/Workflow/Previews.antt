-- ===== src/Domain/Workflow/Previews.antt =====
-- The two previews of a workflow, as a map from member ids: predicates on every preview, and what
-- `deliveries`, `latest` and `all_approve` compute.
use yente.Prelude.{
  Text, ℕ, ◌≤◌, ◌≡◌, refl, ◌⊎◌, inl, inr, true, Option, none, some, List, [], ◌∷◌, arith, lookup,
  insert, length, Option-cases,
}
use yente.Domain.Workflow.{Preview, Delivery, sent, approve, deliveries, latest, all_approve}

abbrev pub All : (Preview → Type 0) → List (Text × Preview) → Type 0
All P [] = Unit
All P ((id, p) ∷ ps) = P p × All P ps

abbrev pub Any : (Preview → Type 0) → List (Text × Preview) → Type 0
Any P [] = ⊥
Any P ((id, p) ∷ ps) = P p ⊎ Any P ps

module _ (P : Preview → Type 0) where
  pub All-lookup :
      (k : Text) (m : List (Text × Preview)) {p : Preview} → All P m → lookup k m ≡ some p → P p
  unfolding lookup
  All-lookup k [] h e = cc
  All-lookup k ((j, q) ∷ m) {p} h e = ground (arith, All-lookup k m {p = p} h.1)

  pub All-insert :
      (k : Text) (p : Preview) (m : List (Text × Preview)) → P p → All P m → All P (insert k p m)
  unfolding insert
  All-insert k p [] hp h = (hp, tt)
  All-insert k p ((j, q) ∷ m) hp h = ground (arith, All-insert k p m hp h.1)

  pub Any-insert : (k : Text) (p : Preview) (m : List (Text × Preview)) → P p → Any P (insert k p m)
  unfolding insert
  Any-insert k p [] hp = inl hp
  Any-insert k p ((j, q) ∷ m) hp = ground (arith, Any-insert k p m hp)

pub All-map :
    (P Q : Preview → Type 0)
    → ((p : Preview) → P p → Q p)
    → (m : List (Text × Preview)) → All P m
    → All Q m
All-map P Q f [] h = tt
All-map P Q f ((id, p) ∷ m) h = (f p h.0, All-map P Q f m h.1)

-- Writing over a key that is there keeps the number of entries.
pub length-insert :
    (k : Text) (p : Preview) (m : List (Text × Preview)) {q : Preview}
    → lookup k m ≡ some q
    → length (insert k p m) ≡ length m
unfolding lookup insert
length-insert k p [] e = cc
length-insert k p ((j, r) ∷ m) {q} e = ground (arith, length-insert k p m {q = q})

pub all_approve-All :
    (m : List (Text × Preview)) → all_approve m ≡ true → All (λ p. p.decision ≡ approve) m
unfolding all_approve
all_approve-All [] e = tt
all_approve-All ((id, p) ∷ m) e = ground (arith, all_approve-All m)

-- A preview that is out since `l` at the latest.
abbrev pub IsOutBy : ℕ → Preview → Type 0
IsOutBy l p = (p.delivery ≡ sent) × ((t : ℕ) × (p.delivered_at ≡ some t) × (t ≤ l))

length-deliveries-le : (m : List (Text × Preview)) → length (deliveries m) ≤ length m
unfolding deliveries
length-deliveries-le [] = omega arith
length-deliveries-le ((id, p) ∷ m) = ground (arith, length-deliveries-le m)

IsOutBy-mono : {l k : ℕ} (m : List (Text × Preview)) → l ≤ k → All (IsOutBy l) m → All (IsOutBy k) m
IsOutBy-mono [] h a = tt
IsOutBy-mono ((id, p) ∷ m) h (out, rest) =
    ((out.0, (out.1.0, out.1.1, omega arith)), IsOutBy-mono m h rest)

latest-cons :
    (t : Option ℕ) (ts : List (Option ℕ)) {l : ℕ}
    → latest (t ∷ ts) ≡ some l
    → (u : ℕ) × (k : ℕ) × (t ≡ some u) × (latest ts ≡ some k) × (u ≤ l) × (k ≤ l)
unfolding latest
latest-cons none ts e = cc
latest-cons (some t) ts e = elim (Option-cases (latest ts)) [
  | inl n ↦ cc
  | inr (k, s) ↦ (t, k, refl, s, ground arith, ground arith)
]

Delivery-cases : (d : Delivery) → (d ≡ Delivery.pending) ⊎ (d ≡ sent)
Delivery-cases Delivery.pending = inl refl
Delivery-cases sent = inr refl

-- If every preview is delivered, the latest delivery is a date that all of them meet.
pub deliveries-All :
    (m : List (Text × Preview)) {l : ℕ}
    → length (deliveries m) ≡ length m
    → latest (deliveries m) ≡ some l
    → All (IsOutBy l) m
unfolding deliveries
deliveries-All [] e h = tt
deliveries-All ((id, p) ∷ m) {l} e h = elim (Delivery-cases p.delivery) [
  | inl wait ↦ absurd (ground (arith, length-deliveries-le m))
  | inr out ↦
      let (u, k, at, rest, first, later) =
        latest-cons p.delivered_at (deliveries m) {l = l} (rw (← h) (rw (out, deliveries))) in
      (
        (out, (u, at, first)),
        IsOutBy-mono {l = k} {k = l} m later (deliveries-All m (ground arith) rest),
      )
]
