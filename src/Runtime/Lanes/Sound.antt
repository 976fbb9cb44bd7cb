-- ===== src/Runtime/Lanes/Sound.antt =====
-- Where every task of a pool is.
use yente.Prelude.{
  ℕ, zero, suc, ◌+◌, ◌≤◌, ◌<◌, ◌≡◌, refl, ap, subst, ◌∙◌, Bool, true, false, ◌&&◌, List, [], ◌∷◌,
  ◌++◌, arith, ltb, length,
}
use mathlib.Core.List.{append_assoc}
use yente.Runtime.Lanes.{Pool, Task}
use yente.Runtime.Lanes.Counts.{count, keys, values, ids, one, ids-append}

-- The numbers from 1 to the one before.
unfoldable pub before : ℕ → List ℕ
before zero = []
before (suc zero) = []
before (suc (suc n)) = before (suc n) ++ suc n ∷ []

unfoldable pub tasks : List (ℕ × Task) → List Task
tasks [] = []
tasks ((w, t) ∷ rest) = t ∷ tasks rest

-- Running: every pending task waits or is with one worker, there are as many lanes as asked for, and the
-- tasks were posted in the order of their arrival. Shutting down: nothing is pending.
abbrev pub Phase : Bool → ℕ → Pool → Type 0
Phase false size s =
    ((n : ℕ) → count n (ids s.waiting) + count n (values s.busy) ≡ count n (keys s.pending))
    × (length s.lanes ≡ size)
    × (ids (tasks s.posted) ++ ids s.waiting ≡ before s.next_id)
Phase true size s = (s.pending ≡ []) × (s.waiting ≡ [])

pub record IsSound (size : ℕ) (s : Pool) : Type 0 where
  pub positive : 0 < s.next_id
  -- Each task that was accepted is pending or settled, once.
  pub accounted :
      (n : ℕ)
      → count n (keys s.pending) + count n (keys s.settled) ≡ one (ltb 0 n && ltb n s.next_id)
  pub distinct : (w : ℕ) → count w s.lanes ≤ 1
  pub known : (w : ℕ) → s.next_worker ≤ w → count w s.lanes ≡ 0
  -- A worker that runs a task is live, and runs one.
  pub live : (w : ℕ) → count w (keys s.busy) ≤ count w s.lanes
  pub phase : Phase s.shutting_down size s

tasks-append : (a b : List (ℕ × Task)) → tasks (a ++ b) ≡ tasks a ++ tasks b
unfolding tasks
tasks-append [] b = refl
tasks-append ((w, t) ∷ a) b = ap (λ l. t ∷ l) (tasks-append a b)

pub Phase-at :
    (size : ℕ) (b : Bool) (s : Pool) → IsSound size s → s.shutting_down ≡ b → Phase b size s
Phase-at size b s h e = subst (λ x. Phase x size s) e h.phase

-- The order of arrival does not change when the first task that waits is posted.
pub order_kept :
    (posted : List (ℕ × Task)) (w : ℕ) (t : Task) (rest : List Task)
    → ids (tasks (posted ++ (w, t) ∷ [])) ++ ids rest ≡ ids (tasks posted) ++ ids (t ∷ rest)
unfolding ids tasks
order_kept posted w t rest =
    ap (λ l. ids l ++ ids rest) (tasks-append posted ((w, t) ∷ []))
    ∙ ap (λ l. l ++ ids rest) (ids-append (tasks posted) (t ∷ []))
    ∙ append_assoc (ids (tasks posted)) (t.id ∷ []) (ids rest)

pub before-suc : (n : ℕ) → 0 < n → before (suc n) ≡ before n ++ n ∷ []
unfolding before
before-suc zero h = absurd (omega arith)
before-suc (suc n) h = refl
