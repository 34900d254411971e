-- ===== src/Build/Repository.antt =====
-- `BuildJobRepository` of ldfd/db/build_jobs.go and `UpdateStatus` of ldfd/db/distribution.go. A
-- method takes the tables and returns them with its error. A statement fails where a key or a row is
-- missing; that the driver itself fails is not modelled.
pub mod Tables
pub mod Rows
use ldf.Prelude.{
  ℕ, ◌+◌, Text, codes, text_eq, Bool, true, false, not, ◌||◌, ◌&&◌, ◌==◌, if◌then◌else◌, List, [],
  ◌∷◌, ◌++◌, map, Option, none, some, any, keep, find_first,
}
use ldf.Build.Types.{
  BuildJobStatus, unset, pending, resolving, preparing, compiling, assembling, packaging, completed,
  failed, cancelled, StageName, resolve, download, prepare, compile, assemble, package_stage,
  other_stage, TargetArch, x86_64, aarch64, other_arch, ImageFormat, no_format, raw, qcow2, iso,
  BuildJob, StageStatus, stage_completed, stage_failed, BuildStage, LogLevel, BuildLog,
  DistributionStatus, dist_downloading, dist_validating, dist_building, dist_ready, dist_failed,
  Distribution, Store, DbError, not_found, duplicate_key, missing_parent,
}

abbrev pub has_id : Text → BuildJob → Bool
has_id id job = text_eq id job.id

-- `GetByID`.
unfoldable pub get_by_id : Store → Text → Option BuildJob
unfolding text_eq
get_by_id db id = find_first (has_id id) db.jobs

abbrev pub update_rows : Text → (BuildJob → BuildJob) → List BuildJob → List BuildJob
update_rows id f jobs = map (λ job. if has_id id job then f job else job) jobs

-- `UPDATE build_jobs SET … WHERE id = ?`, and the error for no affected row.
unfoldable pub exec_update : Store → Text → (BuildJob → BuildJob) → Store × Option DbError
unfolding text_eq
exec_update db id f =
    if any (has_id id) db.jobs
    then (record db { jobs = update_rows id f db.jobs }, none)
    else (db, some not_found)

default_status : BuildJobStatus → BuildJobStatus
default_status unset = pending
default_status status = status

default_arch : TargetArch → TargetArch
default_arch (other_arch []) = x86_64
default_arch arch = arch

default_format : ImageFormat → ImageFormat
default_format no_format = raw
default_format format = format

-- The new job's id is the caller's, or the fresh one if it has none.
filled_in : Text → ℕ → BuildJob → BuildJob
filled_in fresh_id now job = record job {
  id = elim job.id [ [] ↦ fresh_id | c ∷ s ↦ c ∷ s ];
  created_at = now;
  status = default_status job.status;
  max_retries = if job.max_retries == 0 then 1 else job.max_retries;
  target_arch = default_arch job.target_arch;
  image_format = default_format job.image_format;
}

-- `Create`: the id is the primary key, and the distribution has to be there. The filled-in job goes
-- back to the caller.
unfoldable pub create : Store → Text → ℕ → BuildJob → Store × BuildJob × Option DbError
unfolding text_eq filled_in default_status default_arch default_format
create db fresh_id now job =
    let job' = filled_in fresh_id now job in
    if any (has_id job'.id) db.jobs
    then (db, job', some duplicate_key)
    else if any (λ (d : Distribution). text_eq job'.distribution_id d.id) db.distributions
    then (record db { jobs = db.jobs ++ job' ∷ [] }, job', none)
    else (db, job', some missing_parent)

unfoldable pub mark_started : Store → ℕ → Text → Store × Option DbError
unfolding exec_update
mark_started db now id =
    exec_update db id (λ job. record job { status = resolving; started_at = some now })

unfoldable pub stage_name_text : StageName → Text
stage_name_text resolve = codes "resolve"
stage_name_text download = codes "download"
stage_name_text prepare = codes "prepare"
stage_name_text compile = codes "compile"
stage_name_text assemble = codes "assemble"
stage_name_text package_stage = codes "package"
stage_name_text (other_stage name) = name

-- The `switch` of `UpdateStage`.
unfoldable pub stage_job_status : StageName → BuildJobStatus
stage_job_status resolve = resolving
stage_job_status download = preparing
stage_job_status prepare = preparing
stage_job_status compile = compiling
stage_job_status assemble = assembling
stage_job_status package_stage = packaging
stage_job_status (other_stage name) = pending

unfoldable pub update_stage : Store → Text → StageName → ℕ → Store × Option DbError
unfolding exec_update stage_name_text stage_job_status
update_stage db id stage percent = exec_update db id (λ job. record job {
  current_stage = stage_name_text stage;
  progress_percent = percent;
  status = stage_job_status stage;
})

unfoldable pub mark_completed : Store → ℕ → Text → Text → Text → ℕ → Store × Option DbError
unfolding exec_update
mark_completed db now id path checksum size = exec_update db id (λ job. record job {
  status = completed;
  completed_at = some now;
  artifact_path = path;
  artifact_checksum = checksum;
  artifact_size = size;
  progress_percent = 100;
  error_message = [];
})

unfoldable pub mark_failed : Store → ℕ → Text → Text → Text → Store × Option DbError
unfolding exec_update
mark_failed db now id message stage = exec_update db id (λ job. record job {
  status = failed;
  completed_at = some now;
  error_message = message;
  error_stage = stage;
})

unfoldable pub mark_cancelled : Store → ℕ → Text → Store × Option DbError
unfolding exec_update
mark_cancelled db now id = exec_update db id (λ job. record job {
  status = cancelled;
  completed_at = some now;
  error_message = codes "Cancelled by user";
})

unfoldable pub increment_retry : Store → Text → Store × Option DbError
unfolding exec_update
increment_retry db id = exec_update db id (λ job. record job {
  retry_count = job.retry_count + 1;
  status = pending;
  error_message = [];
  error_stage = [];
  current_stage = [];
  progress_percent = 0;
})

-- `Delete`: the stages and logs go with the job.
unfoldable pub delete : Store → Text → Store × Option DbError
unfolding text_eq
delete db id =
    if any (has_id id) db.jobs
    then (
      record db {
        jobs = keep (λ job. not (has_id id job)) db.jobs;
        stages = keep (λ (s : BuildStage). not (text_eq id s.build_id)) db.stages;
        logs = keep (λ (l : BuildLog). not (text_eq id l.build_id)) db.logs;
      },
      none,
    )
    else (db, some not_found)

is_pending : BuildJob → Bool
is_pending job = elim job.status [ pending ↦ true | _ ↦ false ]

-- `ListPending`. The rows stand in the order in which they were created.
unfoldable pub list_pending : Store → List BuildJob
unfolding is_pending
list_pending db = keep is_pending db.jobs
