-- ===== src/Store/Jobs.antt =====
-- src/store/graph.js: IntelligenceJobRepository, the backlog of evidence that waits for a model. A
-- method is what it does to the row of one job, whose id is its `evidenceId`. The backoff of a job is
-- stored as a time, so it survives a restart.
pub mod Runs
pub mod Lifecycle
pub mod Retrying
pub mod Backlog
pub mod Line
mod Tests
use yente.Prelude.{
  Text, ℕ, suc, ◌+◌, ◌-◌, ◌*◌, ◌^◌, Bool, true, false, not, ◌&&◌, ◌||◌, Option, none, some, is_some,
  List, [], ◌∷◌, leb, ltb, max_date, codes, min, if◌then◌else◌, truthy, same, ◌==◌,
}
use yente.Store.Cells.{Outcome, null, kept, written, thrown}
use yente.Store.Matches.{given}

pub data State : Type 0 where
  ready running done failed : State

-- A field that a row does not have yet is `none`, `claims` is 0 then.
pub record Job : Type 0 where
  pub evidence_id : Text
  pub subject_hint : Option Text
  pub state : State
  pub attempts : ℕ
  pub last_error : Option Text
  pub last_error_at : Option ℕ
  pub enqueued_at : ℕ
  pub available_at : Option ℕ
  pub started_at : Option ℕ
  pub finished_at : Option ℕ
  pub claims : ℕ
  pub prompt_version : Option Text
  pub retry_in_ms : Option ℕ
  pub empty_requeued_at : Option ℕ
  pub retired_at : Option ℕ

unfoldable pub enqueue : Text → Option Text → ℕ → Option Job → Outcome Job
enqueue evidence_id subject_hint at (some existing) = kept existing
enqueue evidence_id subject_hint at none = written (record {
  evidence_id = evidence_id;
  subject_hint = subject_hint;
  state = ready;
  attempts = 0;
  last_error = none;
  last_error_at = none;
  enqueued_at = at;
  available_at = some at;
  started_at = none;
  finished_at = none;
  claims = 0;
  prompt_version = none;
  retry_in_ms = none;
  empty_requeued_at = none;
  retired_at = none;
})

-- `if (!job) return null`
abbrev pub on_job : Option Job → (Job → Outcome Job) → Outcome Job
on_job none f = null
on_job (some j) f = f j

-- `IntelligenceJobRepository.backoffMs`
unfoldable pub backoff_ms : ℕ → Option ℕ → Option ℕ → ℕ
backoff_ms attempts base_ms cap_ms =
    min (given cap_ms 3600000) (given base_ms 30000 * 2 ^ (attempts - 1))

abbrev start_in : State → ℕ → Job → Outcome Job
start_in ready at j =
    written (record j { state = running; attempts = j.attempts + 1; started_at = some at })
start_in _ at j = null

unfoldable pub start : ℕ → Option Job → Outcome Job
start at row = on_job row (λ j. start_in j.state at j)

unfoldable pub finish : ℕ → ℕ → Option Text → Option Job → Outcome Job
finish at claims prompt_version row = on_job row (λ j. written (record j {
  state = done;
  finished_at = some at;
  claims = claims;
  prompt_version = prompt_version;
  last_error = none;
}))

-- Open again, due at once; the fields that the methods which re-open a job share.
abbrev pub reopened : ℕ → Job → Job
reopened at j = record j {
  state = ready;
  available_at = some at;
  started_at = none;
  finished_at = none;
  last_error = none;
  last_error_at = none;
  retry_in_ms = none;
}

abbrev same_text : Option Text → Option Text → Bool
same_text none none = true
same_text (some a) (some b) = same a b
same_text _ _ = false

abbrev reassign_in : State → Option Text → ℕ → Job → Outcome Job
reassign_in done subject_hint at j =
    written (record (reopened at j) { subject_hint = subject_hint })
reassign_in _ subject_hint at j = null

unfoldable pub reassign_owner : Option Text → ℕ → Option Job → Outcome Job
reassign_owner subject_hint at row = on_job row (λ j.
    if not (truthy subject_hint) || same_text j.subject_hint subject_hint
    then null
    else reassign_in j.state subject_hint at j)

abbrev empty_in : State → ℕ → Job → Option Job
empty_in done at j =
    if is_some j.retired_at || (ltb 0 j.claims || is_some j.empty_requeued_at)
    then none
    else some (record (reopened at j) { empty_requeued_at = some at })
empty_in _ at j = none

-- What `requeueEmptyUnderstandings` writes for one job.
unfoldable pub requeue_empty : ℕ → Job → Option Job
requeue_empty at j = empty_in j.state at j

-- `text.startsWith(prefix)`
unfoldable pub starts_with : Text → Text → Bool
starts_with [] text = true
starts_with (p ∷ ps) [] = false
starts_with (p ∷ ps) (c ∷ cs) = p == c && starts_with ps cs

abbrev is_done : State → Bool
is_done done = true
is_done _ = false

-- What `retireAttachmentJobs` writes for one job.
unfoldable pub retire_attachment : ℕ → Job → Option Job
retire_attachment at j =
    if not (starts_with (codes "attachment:") j.evidence_id)
    then none
    else (if is_done j.state && is_some j.retired_at
        then none
        else some (record j {
          state = done;
          finished_at = some (given j.finished_at at);
          retired_at = some at;
          last_error = none;
        }))

abbrev prompt_in : State → Option Text → ℕ → Job → Option Job
prompt_in done prompt_version at j =
    if same_text j.prompt_version prompt_version || is_some j.retired_at
    then none
    else some (reopened at j)
prompt_in _ prompt_version at j = none

-- What `requeueForPrompt` writes for one job.
unfoldable pub requeue_for_prompt : Option Text → ℕ → Job → Option Job
requeue_for_prompt prompt_version at j = prompt_in j.state prompt_version at j

-- `...(reason ? { lastError, lastErrorAt } : {})`
abbrev pub with_reason : Option Text → ℕ → Job → Job
with_reason none at j = j
with_reason (some []) at j = j
with_reason (some (c ∷ cs)) at j = record j { last_error = some (c ∷ cs); last_error_at = some at }

unfoldable pub release : ℕ → Option Text → Option Job → Outcome Job
release at reason row = on_job row (λ j. written (
    with_reason reason at (record j {
      state = ready;
      attempts = j.attempts - 1;
      available_at = some j.enqueued_at;
      finished_at = none;
      retry_in_ms = none;
    })))

-- The optional arguments of `fail`.
pub record Failure : Type 0 where
  pub at : ℕ
  pub error : Text
  pub transient : Bool
  pub max_attempts : Option ℕ
  pub base_ms : Option ℕ
  pub cap_ms : Option ℕ

abbrev reached : Option ℕ → ℕ → Bool
reached none attempts = false
reached (some max_attempts) attempts = leb max_attempts attempts

abbrev pub gives_up : Failure → ℕ → Bool
gives_up f attempts = not f.transient || reached f.max_attempts attempts

abbrev pub failure_wait : Failure → Job → ℕ
failure_wait f j = backoff_ms j.attempts f.base_ms f.cap_ms

abbrev pub given_up : Failure → Job → Job
given_up f j = record j {
  state = failed;
  finished_at = some f.at;
  available_at = none;
  last_error = some f.error;
  last_error_at = some f.at;
  retry_in_ms = none;
}

abbrev pub waiting : Failure → Job → Job
waiting f j = record j {
  state = ready;
  finished_at = none;
  available_at = some (f.at + failure_wait f j);
  last_error = some f.error;
  last_error_at = some f.at;
  retry_in_ms = some (failure_wait f j);
}

-- A time past the last date makes `toISOString` throw.
unfoldable pub fail : Failure → Option Job → Outcome Job
fail f row = on_job row (λ j.
    if gives_up f j.attempts
    then written (given_up f j)
    else (if leb (f.at + failure_wait f j) max_date then written (waiting f j) else thrown))

abbrev stranded_in : State → ℕ → Job → Option Job
stranded_in running at j = some (record j {
  state = ready;
  started_at = none;
  available_at = some at;
  last_error = some (codes "requeued after restart");
})
stranded_in _ at j = none

-- What `requeueStranded` writes for one job.
unfoldable pub requeue_stranded : ℕ → Job → Option Job
requeue_stranded at j = stranded_in j.state at j

-- `!job.availableAt || String(job.availableAt) <= String(now)`
abbrev pub due : Option ℕ → ℕ → Bool
due none now = true
due (some available) now = leb available now

abbrev is_ready_state : State → Bool
is_ready_state ready = true
is_ready_state _ = false

unfoldable pub is_ready : ℕ → Job → Bool
is_ready now j = is_ready_state j.state && due j.available_at now
