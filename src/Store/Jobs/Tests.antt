-- ===== src/Store/Jobs/Tests.antt =====
-- Jobs of the backlog, at concrete inputs.
use yente.Prelude.{
  Text, ◌+◌, ◌≡◌, refl, true, Option, none, some, List, [], ◌∷◌, codes, lookup, same, arith,
}
use yente.Store.Cells.{Engine, written, null}
use yente.Store.Cells.Laws.{list_engine}
use yente.Store.Jobs.{
  Job, Failure, ready, running, enqueue, start, finish, fail, backoff_ms, requeue_empty, release,
}
use yente.Store.Jobs.Runs.{enqueues, starts, finishes, fails, requeues_stranded, call, run, swept}
use yente.Store.Jobs.Lifecycle.{IsValid, run-IsValid, empty_once}
use yente.Store.Jobs.Retrying.{AllPassing, rounds, keeps_trying}
use yente.Store.Jobs.Backlog.{act, IsRequeued, get-requeue_stranded}

abbrev the : Option Job → Job
the none = record {
  evidence_id = [];
  subject_hint = none;
  state = running;
  attempts = 0;
  last_error = none;
  last_error_at = none;
  enqueued_at = 0;
  available_at = none;
  started_at = none;
  finished_at = none;
  claims = 0;
  prompt_version = none;
  retry_in_ms = none;
  empty_requeued_at = none;
  retired_at = none;
}
the (some j) = j

abbrev letter : Job
letter = the (run none (enqueues (codes "email:1") none 5 ∷ []))

abbrev timeout : Failure
timeout = record {
  at = 20;
  error = codes "timeout";
  transient = true;
  max_attempts = none;
  base_ms = none;
  cap_ms = none;
}

-- The definitions that the runs compute with.
unfolds : Unit {0}
unfolding run call enqueue start finish fail backoff_ms requeue_empty release AllPassing lookup same
unfolds = tt

run-IsValid_example :
    IsValid (run none (enqueues (codes "email:1") none 5 ∷ starts 6 ∷ fails timeout ∷ []))
run-IsValid_example =
    run-IsValid (enqueues (codes "email:1") none 5 ∷ starts 6 ∷ fails timeout ∷ []) none tt

abbrev empty_result : Job
empty_result = the (run (some letter) (starts 6 ∷ finishes 7 0 none ∷ []))

abbrev once_more : Job
once_more = the (requeue_empty 8 empty_result)

empty_once_example :
    swept (run (some once_more) (starts 9 ∷ finishes 10 0 none ∷ [])) (requeue_empty 11) ≡ null
unfolding unfolds
empty_once_example =
    empty_once empty_result once_more 8 11 (starts 9 ∷ finishes 10 0 none ∷ []) refl

keeps_trying_example :
    (k : Job) × (run (some letter) (rounds ((6, timeout) ∷ (70000, timeout) ∷ [])) ≡ some k)
    × (k.state ≡ ready)
    × (k.attempts ≡ letter.attempts + 2)
    × ((n : Job) × (start 90000 (some k) ≡ written n) × (n.state ≡ running))
unfolding unfolds
keeps_trying_example =
    keeps_trying ((6, timeout) ∷ (70000, timeout) ∷ []) letter 90000 refl
      ((refl, refl, omega arith), ((refl, refl, omega arith), tt))

abbrev engine : Engine Job (List (Text × Job))
engine = list_engine

abbrev rows : List (Text × Job)
rows = (codes "email:1", the (run (some letter) (starts 6 ∷ []))) ∷ (codes "email:2", letter) ∷ []

get-requeue_stranded_example :
    (k : Job) × (engine.get (act engine rows ([], requeues_stranded 9)) (codes "email:1") ≡ some k)
    × IsRequeued 9 (the (run (some letter) (starts 6 ∷ []))) k
unfolding unfolds
get-requeue_stranded_example =
    get-requeue_stranded engine rows 9 (codes "email:1") (the (run (some letter) (starts 6 ∷ [])))
      refl

-- Room for one of two that are due.
abbrev line : List (Text × Job)
line = (codes "email:1", record letter { available_at = some 8 }) ∷ (codes "email:2", letter) ∷ []
