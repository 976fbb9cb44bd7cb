-- ===== src/Store/Jobs/Runs.antt =====
-- The calls of IntelligenceJobRepository as they act on the row of one job.
use yente.Prelude.{Text, ℕ, Option, none, some, List, [], ◌∷◌}
use yente.Store.Cells.{Outcome, row_after, written, null}
use yente.Store.Jobs.{
  Job, Failure, enqueue, start, finish, reassign_owner, requeue_empty, retire_attachment,
  requeue_for_prompt, release, fail, requeue_stranded,
}

pub data Call : Type 0 where
  enqueues : Text → Option Text → ℕ → Call
  starts : ℕ → Call
  finishes : ℕ → ℕ → Option Text → Call
  reassigns : Option Text → ℕ → Call
  requeues_empty : ℕ → Call
  retires : ℕ → Call
  requeues_for_prompt : Option Text → ℕ → Call
  releases : ℕ → Option Text → Call
  fails : Failure → Call
  requeues_stranded : ℕ → Call

-- What a loop over all jobs does to one.
abbrev pub swept : Option Job → (Job → Option Job) → Outcome Job
swept none f = null
swept (some j) f = elim (f j) [ none ↦ null | some k ↦ written k ]

unfoldable pub call : Call → Option Job → Outcome Job
call (enqueues id hint at) row = enqueue id hint at row
call (starts at) row = start at row
call (finishes at claims version) row = finish at claims version row
call (reassigns hint at) row = reassign_owner hint at row
call (requeues_empty at) row = swept row (requeue_empty at)
call (retires at) row = swept row (retire_attachment at)
call (requeues_for_prompt version at) row = swept row (requeue_for_prompt version at)
call (releases at reason) row = release at reason row
call (fails f) row = fail f row
call (requeues_stranded at) row = swept row (requeue_stranded at)

unfoldable pub run : Option Job → List Call → Option Job
run row [] = row
run row (c ∷ cs) = run (row_after row (call c row)) cs
