-- ===== src/Download/Control.antt =====
-- What the handlers call of the manager of ldfd/download/manager.go while a worker holds a job:
-- `CancelJob`, `RetryJob` and the repository's `AddComponentToJob`. The cancel functions are the ids of
-- the jobs that have one; the result names the context that is cancelled.
use ldf.Prelude.{
  ℕ, Text, text_eq, Bool, true, false, if◌then◌else◌, List, [], ◌∷◌, Option, none, some, any,
}
use mathlib.Core.Option
use ldf.Download.Jobs.{
  DownloadJobStatus, job_failed, job_cancelled, Tables, TableError, get_job, mark_job_cancelled,
  increment_job_retry, add_component_to_job,
}

-- `CancelJob`: whether a context was cancelled, and what the statement answers.
unfoldable pub cancel_job : List Text → Tables → ℕ → Text → Bool × Tables × Option TableError
unfolding mark_job_cancelled text_eq
cancel_job cancel_funcs db now id =
    let (db', error) = mark_job_cancelled db now id in (any (text_eq id) cancel_funcs, db', error)

pub data RetryError : Type 0 where
  no_such_job not_retryable : RetryError
  retry_failed : TableError → RetryError

unfoldable pub is_retryable : DownloadJobStatus → Bool
is_retryable job_failed = true
is_retryable job_cancelled = true
is_retryable _ = false

-- `RetryJob`
unfoldable pub retry_job : Tables → Text → Tables × Option RetryError
unfolding get_job increment_job_retry is_retryable
retry_job db id = elim (get_job db id) [
  | none ↦ (db, some no_such_job)
  | some job ↦
      let (db', error) = increment_job_retry db id in
      if is_retryable job.status
      then (db', Option.map retry_failed error)
      else (db, some not_retryable)
]

-- A handler's call during a worker's run.
pub data Action : Type 0 where
  cancel retry : Text → Action
  add_component : Text → Text → Action

-- What a call writes, at a time.
unfoldable pub act : ℕ → Action → Tables → Tables
unfolding mark_job_cancelled retry_job add_component_to_job
act now (cancel id) db = (mark_job_cancelled db now id).0
act now (retry id) db = (retry_job db id).0
act now (add_component id component_id) db = (add_component_to_job db id component_id).0

unfoldable pub act_all : ℕ → List Action → Tables → Tables
unfolding act
act_all now [] db = db
act_all now (action ∷ actions) db = act_all now actions (act now action db)
