-- ===== src/Store/Jobs/Retrying.antt =====
-- A job that fails for a moment, and one that is interrupted.
use yente.Prelude.{
  Text, ℕ, ◌+◌, ◌-◌, ◌*◌, ◌^◌, ◌≤◌, ◌≡◌, refl, ap, ◌∙◌, true, Option, none, some, List, [], ◌∷◌,
  arith, length, max_date, min,
}
use yente.Store.Cells.{written}
use yente.Store.Jobs.{
  Job, Failure, ready, running, backoff_ms, start, release, fail, waiting, given, with_reason,
}
use yente.Store.Jobs.Runs.{Call, starts, releases, fails, call, run}

-- Each round starts the job, and it fails.
abbrev pub rounds : List (ℕ × Failure) → List Call
rounds [] = []
rounds ((at, f) ∷ rest) = starts at ∷ fails f ∷ rounds rest

-- A failure that says something of the moment only, at a time with room for the longest wait.
abbrev pub IsPassing : Failure → Type 0
IsPassing f =
    (f.transient ≡ true) × (f.max_attempts ≡ none) × (f.at + given f.cap_ms 3600000 ≤ max_date)

unfoldable pub AllPassing : List (ℕ × Failure) → Type 0
AllPassing [] = Unit {0}
AllPassing ((at, f) ∷ rest) = IsPassing f × AllPassing rest

abbrev running_from : ℕ → Job → Job
running_from at j = record j { state = running; attempts = j.attempts + 1; started_at = some at }

wait_capped :
    (attempts : ℕ) (base_ms cap_ms : Option ℕ)
    → backoff_ms attempts base_ms cap_ms ≤ given cap_ms 3600000
unfolding backoff_ms
wait_capped attempts base_ms cap_ms = omega arith

one_round :
    (at : ℕ) (f : Failure) (j : Job)
    → j.state ≡ ready
    → IsPassing f
    → run (some j) (starts at ∷ fails f ∷ []) ≡ some (waiting f (running_from at j))
unfolding run call start fail
one_round at f j s p = ground (arith, wait_capped (j.attempts + 1) f.base_ms f.cap_ms)

run_round :
    (at : ℕ) (f : Failure) (j : Job) (cs : List Call)
    → j.state ≡ ready
    → IsPassing f
    → run (some j) (starts at ∷ fails f ∷ cs) ≡ run (some (waiting f (running_from at j))) cs
unfolding run
run_round at f j cs s p = ap (λ row. run row cs) (one_round at f j s p)

-- Passing failures never end a job: after any number of them it is ready, every attempt is counted,
-- and it can be started again.
pub keeps_trying :
    (rs : List (ℕ × Failure)) (j : Job) (at : ℕ)
    → j.state ≡ ready
    → AllPassing rs
    → (k : Job) × (run (some j) (rounds rs) ≡ some k)
      × (k.state ≡ ready)
      × (k.attempts ≡ j.attempts + length rs)
      × ((n : Job) × (start at (some k) ≡ written n) × (n.state ≡ running))
unfolding run AllPassing start
keeps_trying [] j at s p = (j, refl, s, ground arith, (running_from at j, ground arith, refl))
keeps_trying ((t, f) ∷ rs) j at s (passing, p) =
    let (k, e, ready_again, counted, starts_again) =
      keeps_trying rs (waiting f (running_from t j)) at refl p in
    (k, run_round t f j (rounds rs) s passing ∙ e, ready_again, ground arith, starts_again)

-- The wait after a passing failure: it doubles with each attempt up to the cap, and is over at the time
-- that the row stores.
pub failure_waits :
    (f : Failure) (j : Job)
    → IsPassing f
    → (k : Job) × (fail f (some j) ≡ written k)
      × (k.available_at
          ≡ some
              (f.at + min (given f.cap_ms 3600000) (given f.base_ms 30000 * 2 ^ (j.attempts - 1))))
      × (k.attempts ≡ j.attempts)
unfolding fail backoff_ms
failure_waits f j p =
    (waiting f j, ground (arith, wait_capped j.attempts f.base_ms f.cap_ms), refl, refl)

-- Each round starts the job, and a shutdown releases it.
abbrev pub interruptions : List (ℕ × (ℕ × Option Text)) → List Call
interruptions [] = []
interruptions ((at, (later, reason)) ∷ rest) =
    starts at ∷ releases later reason ∷ interruptions rest

abbrev released : ℕ → Option Text → Job → Job
released at reason j = with_reason reason at (record j {
  state = ready;
  attempts = j.attempts - 1;
  available_at = some j.enqueued_at;
  finished_at = none;
  retry_in_ms = none;
})

with_reason-same :
    (reason : Option Text) (at : ℕ) (j : Job)
    → ((with_reason reason at j).state ≡ j.state)
      × ((with_reason reason at j).attempts ≡ j.attempts)
      × ((with_reason reason at j).available_at ≡ j.available_at)
      × ((with_reason reason at j).enqueued_at ≡ j.enqueued_at)
with_reason-same none at j = (refl, refl, refl, refl)
with_reason-same (some []) at j = (refl, refl, refl, refl)
with_reason-same (some (c ∷ cs)) at j = (refl, refl, refl, refl)

one_interruption :
    (at later : ℕ) (reason : Option Text) (j : Job)
    → j.state ≡ ready
    → run (some j) (starts at ∷ releases later reason ∷ [])
      ≡ some (released later reason (running_from at j))
unfolding run call start release
one_interruption at later reason j s = ground arith

-- An interruption is not the job's failure: a ready job that is due from the time at which it was
-- enqueued is, after any number of starts that a shutdown ended, again ready and due from that time,
-- with the attempts that it had.
pub interruptions_cost_nothing :
    (is : List (ℕ × (ℕ × Option Text))) (j : Job)
    → j.state ≡ ready
    → j.available_at ≡ some j.enqueued_at
    → (k : Job) × (run (some j) (interruptions is) ≡ some k)
      × (k.state ≡ ready)
      × (k.attempts ≡ j.attempts)
      × (k.available_at ≡ some j.enqueued_at)
unfolding run
interruptions_cost_nothing [] j s a = (j, refl, s, refl, a)
interruptions_cost_nothing ((at, (later, reason)) ∷ is) j s a =
    let (same_state, same_attempts, same_time, same_enqueued) =
      with_reason-same reason later (record (running_from at j) {
        state = ready;
        attempts = j.attempts + 1 - 1;
        available_at = some j.enqueued_at;
        finished_at = none;
        retry_in_ms = none;
      }) in
    let (k, e, s', n, t) =
      interruptions_cost_nothing is (released later reason (running_from at j)) same_state
        (ground arith) in
    (
      k,
      ap (λ row. run row (interruptions is)) (one_interruption at later reason j s) ∙ e,
      s',
      ground arith,
      ground arith,
    )
