-- ===== src/Download/Jobs.antt =====
-- `DownloadJobRepository` of ldfd/db/download_jobs.go, with the job of ldfd/db/models.go. A row is
-- found by its id; a statement fails where a key, a parent row or the row itself is missing. That the
-- driver itself fails is not modelled. An `int64` is a word of 64 bits, so that -1 is 2 ^ 64 - 1; a
-- component's name, which is read from another table, is not a field of the row.
pub mod Rows
use ldf.Prelude.{
  ℕ, ◌+◌, Text, codes, text_eq, Bool, true, false, not, ◌||◌, ◌&&◌, ◌==◌, ltb, if◌then◌else◌, List,
  [], ◌∷◌, ◌++◌, Option, none, some, any, keep, find_first, find_row, is_row, update_row,
  delete_row, is_nil, reverse,
}

pub data DownloadJobStatus : Type 0 where
  job_unset job_pending job_verifying job_downloading job_completed job_failed job_cancelled :
      DownloadJobStatus

pub record DownloadJob : Type 0 where
  pub id : Text
  pub distribution_id : Text
  pub owner_id : Text
  pub component_id : Text
  pub component_ids : List Text
  pub source_id : Text
  pub source_name : Text
  pub source_type : Text
  pub retrieval_method : Text
  pub resolved_url : Text
  pub version : Text
  pub status : DownloadJobStatus
  pub progress_bytes : ℕ
  pub total_bytes : ℕ
  pub created_at : ℕ
  pub started_at : Option ℕ
  pub completed_at : Option ℕ
  pub artifact_path : Text
  pub checksum : Text
  pub error_message : Text
  pub retry_count : ℕ
  pub max_retries : ℕ
  pub priority : ℕ
  pub cache_hit : Bool

-- The table, and the keys of the tables that it refers to.
pub record Tables : Type 0 where
  pub jobs : List DownloadJob
  pub distribution_ids : List Text
  pub component_ids : List Text

pub data TableError : Type 0 where
  job_not_found duplicate_job missing_parent_row : TableError

abbrev pub job_key : DownloadJob → Text
job_key job = job.id

-- `GetByID`
unfoldable pub get_job : Tables → Text → Option DownloadJob
unfolding find_row
get_job db id = find_row job_key id db.jobs

-- `UPDATE download_jobs SET … WHERE id = ?`, and the error for no affected row.
unfoldable pub update_job : Tables → Text → (DownloadJob → DownloadJob) → Tables × Option TableError
unfolding is_row update_row
update_job db id f =
    if is_row job_key id db.jobs
    then (record db { jobs = update_row job_key id f db.jobs }, none)
    else (db, some job_not_found)

unfoldable pub default_job_status : DownloadJobStatus → DownloadJobStatus
default_job_status job_unset = job_pending
default_job_status status = status

unfoldable pub job_filled_in : Text → ℕ → DownloadJob → DownloadJob
unfolding default_job_status
job_filled_in fresh_id now job = record job {
  id = if is_nil job.id then fresh_id else job.id;
  created_at = now;
  status = default_job_status job.status;
  max_retries = if job.max_retries == 0 then 3 else job.max_retries;
}

-- `Create`; the filled-in job goes back to the caller.
unfoldable pub create_job :
    Tables → Text → ℕ → DownloadJob → Tables × DownloadJob × Option TableError
unfolding is_row text_eq job_filled_in default_job_status
create_job db fresh_id now job =
    let job' = job_filled_in fresh_id now job in
    if is_row job_key job'.id db.jobs
    then (db, job', some duplicate_job)
    else if any (text_eq job'.distribution_id) db.distribution_ids
        && any (text_eq job'.component_id) db.component_ids
    then (record db { jobs = db.jobs ++ job' ∷ [] }, job', none)
    else (db, job', some missing_parent_row)

-- `GetBySourceAndVersion`
unfoldable pub get_by_source_and_version : Tables → Text → Text → Text → Option DownloadJob
unfolding text_eq
get_by_source_and_version db distribution_id source_id version =
    find_first
      (λ job.
        text_eq distribution_id job.distribution_id
        && (text_eq source_id job.source_id && text_eq version job.version))
      db.jobs

is_completed : DownloadJobStatus → Bool
is_completed job_completed = true
is_completed _ = false

-- `GetCompletedBySourceAndVersion`
unfoldable pub get_completed_by_source_and_version : Tables → Text → Text → Option DownloadJob
unfolding text_eq is_completed
get_completed_by_source_and_version db source_id version =
    find_first
      (λ job.
        text_eq source_id job.source_id && (text_eq version job.version && is_completed job.status))
      db.jobs

-- The newest first: rows stand in the order of their creation.
unfoldable pub list_by_distribution : Tables → Text → List DownloadJob
unfolding text_eq
list_by_distribution db distribution_id =
    reverse (keep (λ job. text_eq distribution_id job.distribution_id) db.jobs)

unfoldable pub update_status : Tables → Text → DownloadJobStatus → Text → Tables × Option TableError
unfolding update_job
update_status db id status message =
    update_job db id (λ job. record job { status = status; error_message = message })

unfoldable pub update_progress : Tables → Text → ℕ → ℕ → Tables × Option TableError
unfolding update_job
update_progress db id progress_bytes total_bytes =
    update_job db id
      (λ job. record job { progress_bytes = progress_bytes; total_bytes = total_bytes })

unfoldable pub mark_job_started : Tables → ℕ → Text → Tables × Option TableError
unfolding update_job
mark_job_started db now id =
    update_job db id (λ job. record job { status = job_downloading; started_at = some now })

unfoldable pub mark_verifying : Tables → Text → Tables × Option TableError
unfolding update_job
mark_verifying db id = update_job db id (λ job. record job { status = job_verifying })

unfoldable pub mark_job_completed : Tables → ℕ → Text → Text → Text → ℕ → Tables × Option TableError
unfolding update_job
mark_job_completed db now id artifact_path checksum total_bytes = update_job db id (λ job.
    record job {
      status = job_completed;
      completed_at = some now;
      artifact_path = artifact_path;
      checksum = checksum;
      total_bytes = total_bytes;
      error_message = [];
    })

unfoldable pub mark_job_failed : Tables → ℕ → Text → Text → Tables × Option TableError
unfolding update_job
mark_job_failed db now id message =
    update_job db id
      (λ job. record job { status = job_failed; completed_at = some now; error_message = message })

unfoldable pub mark_job_cancelled : Tables → ℕ → Text → Tables × Option TableError
unfolding update_job
mark_job_cancelled db now id = update_job db id (λ job. record job {
  status = job_cancelled;
  completed_at = some now;
  error_message = codes "Cancelled by user";
})

unfoldable pub increment_job_retry : Tables → Text → Tables × Option TableError
unfolding update_job
increment_job_retry db id = update_job db id (λ job. record job {
  retry_count = job.retry_count + 1;
  status = job_pending;
  error_message = [];
})

unfoldable pub delete_job : Tables → Text → Tables × Option TableError
unfolding is_row delete_row
delete_job db id =
    if is_row job_key id db.jobs
    then (record db { jobs = delete_row job_key id db.jobs }, none)
    else (db, some job_not_found)

unfoldable pub delete_jobs_by_distribution : Tables → Text → Tables
unfolding text_eq
delete_jobs_by_distribution db distribution_id = record db {
  jobs = keep (λ job. not (text_eq distribution_id job.distribution_id)) db.jobs;
}

-- `AddComponentToJob`
unfoldable pub add_component_to_job : Tables → Text → Text → Tables × Option TableError
unfolding get_job update_row text_eq
add_component_to_job db job_id component_id = elim (get_job db job_id) [
  | none ↦ (db, some job_not_found)
  | some job ↦ if any (λ id. text_eq id component_id) job.component_ids then (db, none) else (
    record db {
      jobs =
          update_row job_key job_id
            (λ row. record row { component_ids = job.component_ids ++ component_id ∷ [] }) db.jobs;
    },
    none,
  )
]
