-- ===== src/Runtime/Lanes/Counts.antt =====
-- How often a number stands in a list.
use yente.Prelude.{
  Text, ℕ, suc, ◌+◌, ◌≤◌, ◌<◌, ◌≡◌, refl, ap, Bool, true, false, Option, none, some, is_some, List,
  [], ◌∷◌, ◌++◌, arith, ◌↔◌, if◌then◌else◌, ◌==◌,
}
use yente.Runtime.Lanes.{find, assign, forget, drop_number, Task, first_idle, reject_all}

abbrev pub tick : Bool → ℕ → ℕ
tick true n = suc n
tick false n = n

unfoldable pub count : ℕ → List ℕ → ℕ
count n [] = 0
count n (x ∷ l) = tick (x == n) (count n l)

module _ {ℓ} {V : Type ℓ} where
  unfoldable pub keys : List (ℕ × V) → List ℕ
  keys [] = []
  keys ((k, v) ∷ m) = k ∷ keys m

unfoldable pub values : List (ℕ × ℕ) → List ℕ
values [] = []
values ((k, v) ∷ m) = v ∷ values m

unfoldable pub ids : List Task → List ℕ
ids [] = []
ids (t ∷ ts) = t.id ∷ ids ts

abbrev pub one : Bool → ℕ
one true = 1
one false = 0

pub count-append : (n : ℕ) (a b : List ℕ) → count n (a ++ b) ≡ count n a + count n b
unfolding count
count-append n [] b = omega arith
count-append n (x ∷ a) b = ground (arith, count-append n a b)

module _ {ℓ} {V : Type ℓ} where
  pub keys-append : (a b : List (ℕ × V)) → keys (a ++ b) ≡ keys a ++ keys b
  unfolding keys
  keys-append [] b = refl
  keys-append ((k, v) ∷ a) b = ap (λ l. k ∷ l) (keys-append a b)

  -- A key that is found is counted.
  pub find-count :
      (k : ℕ) (m : List (ℕ × V)) → (is_some (find k m) ≡ false) ↔ (count k (keys m) ≡ 0)
  unfolding find count keys
  find-count k [] = ((λ h. refl), (λ h. refl))
  find-count k ((j, v) ∷ m) =
      ((λ h. ground (arith, find-count k m)), (λ h. ground (arith, find-count k m)))

  pub count-assign :
      (n k : ℕ) (v : V) (m : List (ℕ × V))
      → count k (keys m) ≡ 0
      → count n (keys (assign k v m)) ≡ count n (keys m) + one (k == n)
  unfolding assign count keys
  count-assign n k v [] h = ground arith
  count-assign n k v ((j, w) ∷ m) h = ground (arith, count-assign n k v m)

  pub count-forget :
      (n k : ℕ) (m : List (ℕ × V))
      → count n (keys (forget k m)) ≡ (if k == n then 0 else count n (keys m))
  unfolding forget count keys
  count-forget n k [] = ground arith
  count-forget n k ((j, w) ∷ m) = ground (arith, count-forget n k m)

pub count-drop_number :
    (n k : ℕ) (l : List ℕ) → count n (drop_number k l) ≡ (if k == n then 0 else count n l)
unfolding drop_number count
count-drop_number n k [] = ground arith
count-drop_number n k (j ∷ l) = ground (arith, count-drop_number n k l)

pub values-assign :
    (n k v : ℕ) (m : List (ℕ × ℕ))
    → count k (keys m) ≡ 0
    → count n (values (assign k v m)) ≡ count n (values m) + one (v == n)
unfolding assign count keys values
values-assign n k v [] h = ground arith
values-assign n k v ((j, w) ∷ m) h = ground (arith, values-assign n k v m)

-- What a worker ran.
abbrev pub held_one : Option ℕ → ℕ → ℕ
held_one none n = 0
held_one (some v) n = one (v == n)

forget_absent :
    (n k : ℕ) (m : List (ℕ × ℕ))
    → count k (keys m) ≡ 0
    → count n (values (forget k m)) ≡ count n (values m)
unfolding forget count keys values
forget_absent n k [] h = refl
forget_absent n k ((j, w) ∷ m) h = ground (arith, forget_absent n k m)

pub values-forget :
    (n k : ℕ) (m : List (ℕ × ℕ))
    → count k (keys m) ≤ 1
    → count n (values (forget k m)) + held_one (find k m) n ≡ count n (values m)
unfolding forget count keys values find
values-forget n k [] h = refl
values-forget n k ((j, w) ∷ m) h = ground (arith, values-forget n k m, forget_absent n k m)

pub ids-append : (a b : List Task) → ids (a ++ b) ≡ ids a ++ ids b
unfolding ids
ids-append [] b = refl
ids-append (t ∷ a) b = ap (λ l. t.id ∷ l) (ids-append a b)

pub keys-reject_all : (m : List (ℕ × Option Text)) → keys (reject_all m) ≡ keys m
unfolding reject_all keys
keys-reject_all [] = refl
keys-reject_all ((k, v) ∷ m) = ap (λ l. k ∷ l) (keys-reject_all m)

-- The lane that is found is a live one and runs nothing.
pub first_idle_free :
    (busy : List (ℕ × ℕ)) (ws : List ℕ) (w : ℕ)
    → first_idle busy ws ≡ some w
    → (count w (keys busy) ≡ 0) × (0 < count w ws)
unfolding first_idle count
first_idle_free busy [] w h = absurd (ground arith)
first_idle_free busy (x ∷ ws) w h = ground (arith, find-count x busy, first_idle_free busy ws w)

pub none_idle :
    (busy : List (ℕ × ℕ)) (ws : List ℕ) (w : ℕ)
    → first_idle busy ws ≡ none
    → 0 < count w ws
    → 0 < count w (keys busy)
unfolding first_idle count
none_idle busy [] w h c = absurd (ground arith)
none_idle busy (x ∷ ws) w h c = ground (arith, find-count x busy, none_idle busy ws w)
