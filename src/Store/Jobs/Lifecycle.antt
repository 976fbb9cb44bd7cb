-- ===== src/Store/Jobs/Lifecycle.antt =====
-- What the state of a job says of its other fields, and the jobs that are read again only once.
use yente.Prelude.{
  ℕ, ◌<◌, ◌≡◌, refl, Bool, true, false, Option, none, some, is_some, List, [], ◌∷◌, arith,
}
use yente.Store.Cells.{row_after, null}
use yente.Store.Jobs.{
  Job, State, ready, running, done, failed, enqueue, start, finish, reassign_owner, requeue_empty,
  retire_attachment, requeue_for_prompt, release, fail, requeue_stranded,
}
use yente.Store.Jobs.Runs.{
  Call, enqueues, starts, finishes, reassigns, requeues_empty, retires, requeues_for_prompt,
  releases, fails, requeues_stranded, call, swept, run,
}

abbrev pub Standing : State → Job → Type 0
Standing ready j = (is_some j.available_at ≡ true) × (j.finished_at ≡ none)
Standing running j = (0 < j.attempts) × (is_some j.started_at ≡ true) × (j.finished_at ≡ none)
Standing done j = is_some j.finished_at ≡ true
Standing failed j =
    (is_some j.finished_at ≡ true) × (j.available_at ≡ none) × (is_some j.last_error ≡ true)

abbrev pub IsValid : Option Job → Type 0
IsValid none = Unit {0}
IsValid (some j) = Standing j.state j

call-IsValid : (c : Call) (row : Option Job) → IsValid row → IsValid (row_after row (call c row))
unfolding call enqueue start finish reassign_owner requeue_empty retire_attachment
    requeue_for_prompt release fail requeue_stranded
call-IsValid (enqueues id hint at) none h = (refl, refl)
call-IsValid (enqueues id hint at) (some j) h = h
call-IsValid (starts at) none h = h
call-IsValid (starts at) (some j) h = ground arith
call-IsValid (finishes at claims version) none h = h
call-IsValid (finishes at claims version) (some j) h = refl
call-IsValid (reassigns hint at) none h = h
call-IsValid (reassigns hint at) (some j) h = ground arith
call-IsValid (requeues_empty at) none h = h
call-IsValid (requeues_empty at) (some j) h = ground arith
call-IsValid (retires at) none h = h
call-IsValid (retires at) (some j) h = ground arith
call-IsValid (requeues_for_prompt version at) none h = h
call-IsValid (requeues_for_prompt version at) (some j) h = ground arith
call-IsValid (releases at reason) none h = h
call-IsValid (releases at none) (some j) h = (refl, refl)
call-IsValid (releases at (some [])) (some j) h = (refl, refl)
call-IsValid (releases at (some (c ∷ cs))) (some j) h = (refl, refl)
call-IsValid (fails f) none h = h
call-IsValid (fails f) (some j) h = ground arith
call-IsValid (requeues_stranded at) none h = h
call-IsValid (requeues_stranded at) (some j) h = ground arith

-- Of a job that any calls made: a ready one has a time from which it is due, a running one was started
-- and counts an attempt, neither has finished; a done one and a failed one have finished; a failed one
-- is never due and says why.
pub run-IsValid : (cs : List Call) (row : Option Job) → IsValid row → IsValid (run row cs)
unfolding run
run-IsValid [] row h = h
run-IsValid (c ∷ cs) row h = run-IsValid cs (row_after row (call c row)) (call-IsValid c row h)

abbrev pub IsMarked : Option Job → Type 0
IsMarked none = Bool.true ≡ false
IsMarked (some j) = is_some j.empty_requeued_at ≡ true

call-IsMarked :
    (c : Call) (j : Job) → IsMarked (some j) → IsMarked (row_after (some j) (call c (some j)))
unfolding call enqueue start finish reassign_owner requeue_empty retire_attachment
    requeue_for_prompt release fail requeue_stranded
call-IsMarked (enqueues id hint at) j h = h
call-IsMarked (starts at) j h = ground arith
call-IsMarked (finishes at claims version) j h = h
call-IsMarked (reassigns hint at) j h = ground arith
call-IsMarked (requeues_empty at) j h = ground arith
call-IsMarked (retires at) j h = ground arith
call-IsMarked (requeues_for_prompt version at) j h = ground arith
call-IsMarked (releases at none) j h = h
call-IsMarked (releases at (some [])) j h = h
call-IsMarked (releases at (some (c ∷ cs))) j h = h
call-IsMarked (fails f) j h = ground arith
call-IsMarked (requeues_stranded at) j h = ground arith

run-IsMarked : (cs : List Call) (row : Option Job) → IsMarked row → IsMarked (run row cs)
unfolding run
run-IsMarked [] row h = h
run-IsMarked (c ∷ cs) none h = absurd (ground arith)
run-IsMarked (c ∷ cs) (some j) h =
    run-IsMarked cs (row_after (some j) (call c (some j))) (call-IsMarked c j h)

marked_stays : (row : Option Job) (at : ℕ) → IsMarked row → swept row (requeue_empty at) ≡ null
unfolding requeue_empty
marked_stays none at h = refl
marked_stays (some j) at h = ground arith

requeue_empty-IsMarked : (j k : Job) (at : ℕ) → requeue_empty at j ≡ some k → IsMarked (some k)
unfolding requeue_empty
requeue_empty-IsMarked j k at e = ground arith

-- A job that was opened again because its result was empty is not opened again for that reason, after
-- any calls, so a message that is really empty costs one more inference at most.
pub empty_once :
    (j k : Job) (at later : ℕ) (cs : List Call)
    → requeue_empty at j ≡ some k
    → swept (run (some k) cs) (requeue_empty later) ≡ null
empty_once j k at later cs e =
    marked_stays _ later (run-IsMarked cs (some k) (requeue_empty-IsMarked j k at e))
