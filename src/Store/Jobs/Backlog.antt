-- ===== src/Store/Jobs/Backlog.antt =====
-- src/store/graph.js: IntelligenceJobRepository on its collection, `intelligence_jobs`. A row stands
-- under its `evidenceId`, by which the loops write it.
use yente.Prelude.{
  Text, ℕ, suc, ◌+◌, ◌≡◌, ◌≢◌, ◌∙◌, ap, Bool, true, none, some, List, [], ◌∷◌, codes, same,
  same_iff, if◌then◌else◌, arith,
}
use yente.Store.Cells.{Engine, written, row_after, edit, sweep, select}
use yente.Store.Cells.Laws.{get-edit, get-sweep}
use yente.Store.Cells.Order.{slice, oldest_first}
use yente.Store.Jobs.{
  Job, State, ready, running, done, failed, enqueue, start, requeue_empty, retire_attachment,
  requeue_for_prompt, requeue_stranded, given, is_ready,
}
use yente.Store.Jobs.Runs.{
  Call, enqueues, starts, finishes, reassigns, requeues_empty, retires, requeues_for_prompt,
  releases, fails, requeues_stranded, call,
}

-- `availableAt ?? enqueuedAt`
abbrev pub due_time : Job → ℕ
due_time j = given j.available_at j.enqueued_at

pub record Counts : Type 0 where
  pub count_ready : ℕ
  pub count_running : ℕ
  pub count_done : ℕ
  pub count_failed : ℕ

abbrev pub count_state : State → Counts → Counts
count_state ready c = record c { count_ready = suc c.count_ready }
count_state running c = record c { count_running = suc c.count_running }
count_state done c = record c { count_done = suc c.count_done }
count_state failed c = record c { count_failed = suc c.count_failed }

unfoldable pub tally : List (Text × Job) → Counts
tally [] = record { count_ready = 0; count_running = 0; count_done = 0; count_failed = 0 }
tally ((id, j) ∷ rest) = count_state j.state (tally rest)

-- What a restart makes of a job.
pub record IsRequeued (at : ℕ) (j k : Job) : Type 0 where
  pub not_running : k.state ≢ running
  pub ready_again :
      j.state ≡ running
      → (k.state ≡ ready)
        × (k.available_at ≡ some at)
        × (k.attempts ≡ j.attempts)
        × ((n : Job) × (start at (some k) ≡ written n))
  pub untouched : j.state ≢ running → k ≡ j

abbrev requeued_job : ℕ → Job → Job
requeued_job at j = record j {
  state = ready;
  started_at = none;
  available_at = some at;
  last_error = some (codes "requeued after restart");
}

abbrev restarted : State → ℕ → Job → Job
restarted running at j = requeued_job at j
restarted _ at j = j

restarted_row :
    (at : ℕ) (j : Job)
    → row_after (some j) (call (requeues_stranded at) (some j)) ≡ some (restarted j.state at j)
unfolding call requeue_stranded
restarted_row at j = ground arith

started_again : (at : ℕ) (j : Job) → j.state ≡ ready → (n : Job) × (start at (some j) ≡ written n)
unfolding start
started_again at j s =
    (record j { state = running; attempts = j.attempts + 1; started_at = some at }, ground arith)

restarted-IsRequeued : (at : ℕ) (j : Job) → IsRequeued at j (restarted j.state at j)
restarted-IsRequeued at j = record {
  not_running = ground arith;
  ready_again = λ r. (ground arith, ground arith, ground arith, started_again at _ (ground arith));
  untouched = λ r. ground arith;
}

requeued :
    (at : ℕ) (j : Job)
    → (k : Job) × (row_after (some j) (call (requeues_stranded at) (some j)) ≡ some k)
      × IsRequeued at j k
requeued at j = (restarted j.state at j, restarted_row at j, restarted-IsRequeued at j)

module _ {Db : Type 0} (e : Engine Job Db) where
  -- A call on the job with an id; the methods that loop reach every job.
  unfoldable pub act : Db → Text × Call → Db
  act db (id, enqueues evidence_id hint at) = edit e db evidence_id (enqueue evidence_id hint at)
  act db (id, requeues_empty at) = sweep e db (requeue_empty at) db (e.ids db)
  act db (id, retires at) = sweep e db (retire_attachment at) db (e.ids db)
  act db (id, requeues_for_prompt version at) =
      sweep e db (requeue_for_prompt version at) db (e.ids db)
  act db (id, requeues_stranded at) = sweep e db (requeue_stranded at) db (e.ids db)
  act db (id, c) = edit e db id (call c)

  -- `ready(limit, now)`
  unfoldable pub ready_jobs : Db → ℕ → ℕ → List (Text × Job)
  ready_jobs db limit now =
      slice limit (oldest_first due_time (select e db (is_ready now) (e.ids db)))

  unfoldable pub counts : Db → Counts
  counts db = tally (select e db (λ j. true) (e.ids db))

  abbrev pub concerns : Text × Call → Text → Bool
  concerns (id, enqueues evidence_id hint at) j = same evidence_id j
  concerns (id, requeues_empty at) j = true
  concerns (id, retires at) j = true
  concerns (id, requeues_for_prompt version at) j = true
  concerns (id, requeues_stranded at) j = true
  concerns (id, c) j = same id j

  -- A call acts on each job that it concerns as on its row alone, and on no other.
  pub get-act :
      (db : Db) (id : Text) (c : Call) (j : Text)
      → e.get (act db (id, c)) j
        ≡ (if concerns (id, c) j then row_after (e.get db j) (call c (e.get db j)) else e.get db j)
  unfolding act call
  get-act db id (enqueues x hint at) j =
      ground (arith, get-edit e db x j (enqueue x hint at), same_iff x j)
  get-act db id (starts at) j = ground (arith, get-edit e db id j (call (starts at)), same_iff id j)
  get-act db id (finishes at n v) j =
      ground (arith, get-edit e db id j (call (finishes at n v)), same_iff id j)
  get-act db id (reassigns h at) j =
      ground (arith, get-edit e db id j (call (reassigns h at)), same_iff id j)
  get-act db id (releases at r) j =
      ground (arith, get-edit e db id j (call (releases at r)), same_iff id j)
  get-act db id (fails f) j = ground (arith, get-edit e db id j (call (fails f)), same_iff id j)
  get-act db id (requeues_empty at) j = ground (arith, get-sweep e db (requeue_empty at) j)
  get-act db id (retires at) j = ground (arith, get-sweep e db (retire_attachment at) j)
  get-act db id (requeues_for_prompt v at) j =
      ground (arith, get-sweep e db (requeue_for_prompt v at) j)
  get-act db id (requeues_stranded at) j = ground (arith, get-sweep e db (requeue_stranded at) j)

  -- After a restart every job that was running is ready, due at once, with its attempts, and can be
  -- started again; every other job is as it was, so none is running.
  pub get-requeue_stranded :
      (db : Db) (at : ℕ) (id : Text) (j : Job)
      → e.get db id ≡ some j
      → (k : Job) × (e.get (act db ([], requeues_stranded at)) id ≡ some k) × IsRequeued at j k
  get-requeue_stranded db at id j h =
      let (k, g, r) = requeued at j in
      (
        k,
        get-act db [] (requeues_stranded at) id
            ∙ ap (λ row. row_after row (call (requeues_stranded at) row)) h
            ∙ g,
        r,
      )
