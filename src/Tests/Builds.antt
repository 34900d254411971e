-- ===== src/Tests/Builds.antt =====
-- Builds of ldfd/build on a table of two jobs.
use ldf.Prelude.{
  ◌≤◌, Text, codes, text_eq, true, false, [], ◌∷◌, none, some, ◌≡◌, ◌≢◌, ◌⊎◌, refl, arith, length,
}
use ldf.Build.Types.{
  dist_pending, BuildJobStatus, pending, failed, cancelled, BuildJob, Store, resolve, compile,
  x86_64, raw,
}
use ldf.Build.Arch.{HostSystem, docker}
use ldf.Build.Repository.{get_by_id, list_pending}
use ldf.Build.Repository.Rows.{is_present}
use ldf.Build.Manager.{
  Manager, build_not_found, not_retryable, dispatch_pending_jobs, retry_build, Submission,
  submit_build,
}
use ldf.Build.Manager.Lifecycle.{Reset, dispatch_pending_jobs-queue, retry_build-cases}
use ldf.Build.Manager.Submit.{Submitted, submit_build-cases, submit-dispatch_twice}
use ldf.Build.Worker.{begin_stage, process_job}
use ldf.Build.Worker.Steps.{report_all, StageRun, JobRun, succeeds, fails, cancel}
use ldf.Build.Worker.Pipeline.{failing}
use ldf.Build.Worker.Outcome.{Ended, process_job-Ended}
use ldf.Build.Worker.Progress.{InBand, stage-InBand}
use ldf.Build.Worker.Isolation.{process_job-other}

abbrev job_of : Text → BuildJobStatus → BuildJob
job_of id status = record {
  id = id;
  distribution_id = codes "d";
  owner_id = codes "o";
  status = status;
  current_stage = [];
  target_arch = x86_64;
  image_format = raw;
  progress_percent = 0;
  workspace_path = [];
  artifact_path = [];
  artifact_checksum = [];
  artifact_size = 0;
  error_message = [];
  error_stage = [];
  retry_count = 0;
  max_retries = 1;
  clear_cache = false;
  config_snapshot = codes "{}";
  created_at = 1;
  started_at = none;
  completed_at = none;
}

abbrev first_job : BuildJob
first_job = job_of (codes "a") pending

abbrev second_job : BuildJob
second_job = job_of (codes "b") failed

abbrev tables : Store
tables = record { jobs = first_job ∷ second_job ∷ []; stages = []; logs = []; distributions = [] }

abbrev host : HostSystem
host = record {
  goarch = codes "amd64";
  look_path = λ binary. none;
  path_exists = λ path. false;
  image_exists = λ runtime image. false;
}

-- A build that is cancelled while its second stage runs: the stage then fails.
abbrev resolve_run : StageRun
resolve_run = record {
  name = resolve;
  now = 10;
  before = [];
  manager_stopped = false;
  validation = succeeds;
  during = [];
  reports = (50, codes "half") ∷ [];
  execution = succeeds;
  duration_ms = 5;
}

abbrev compile_run : StageRun
compile_run = record resolve_run {
  name = compile;
  now = 20;
  during = cancel 21 (codes "a") ∷ [];
  execution = fails (codes "context canceled");
}

abbrev cancelled_run : JobRun
cancelled_run = record {
  started = 9;
  config_error = none;
  system = host;
  runtime = docker;
  image = codes "ldf-builder:latest";
  directory_error = none;
  stages = resolve_run ∷ compile_run ∷ [];
  artifact_path = codes "out.img";
  artifact_checksum = codes "c0";
  artifact_size = 7;
  ended = 30;
}

rows_present : (is_present tables (codes "a") ≡ true) × (is_present tables (codes "b") ≡ true)
unfolding is_present
rows_present = (refl, refl)

process_job-Ended_example :
    Ended
      (process_job tables first_job cancelled_run).store
      (codes "a")
      cancelled_run
      (some (codes "compile"))
unfolding failing
process_job-Ended_example = process_job-Ended tables first_job cancelled_run rows_present.0

process_job-other_example :
    get_by_id (process_job tables first_job cancelled_run).store (codes "b")
    ≡ get_by_id tables (codes "b")
unfolding text_eq
process_job-other_example =
    process_job-other tables first_job cancelled_run (codes "b") refl
      ((tt, tt), (((tt, (refl, tt)), tt)))

stage-InBand_example :
    InBand
      (report_all
        (begin_stage tables first_job resolve_run 2 1)
        first_job
        resolve_run
        2
        1
        resolve_run.reports)
      (codes "a")
      resolve_run
      2
      1
stage-InBand_example =
    stage-InBand tables first_job resolve_run 2 1 rows_present.0 (omega arith) (omega arith)

abbrev manager : Manager
manager = record {
  store = tables;
  queue = first_job ∷ [];
  config = record {
    workers = 1;
    workspace_base = codes "w";
    container_image = codes "i";
    container_runtime = codes "podman";
    retry_delay = 1;
    max_retries = 1;
  };
}

-- The job that waits already is put into the queue a second time.
dispatch_pending_jobs-queue_example :
    ((dispatch_pending_jobs manager).queue ≡ first_job ∷ first_job ∷ [])
    × (length (dispatch_pending_jobs manager).queue ≤ 2)
unfolding list_pending
dispatch_pending_jobs-queue_example = dispatch_pending_jobs-queue manager (omega arith)

retry_build-cases_example :
    ((get_by_id tables (codes "b") ≡ none)
      × (retry_build tables (codes "b") ≡ (tables, some build_not_found)))
    ⊎ ((job : BuildJob) × (get_by_id tables (codes "b") ≡ some job)
        × (((job.status ≢ failed)
              × (job.status ≢ cancelled)
              × (retry_build tables (codes "b") ≡ (tables, some not_retryable)))
            ⊎ (((job.status ≡ failed) ⊎ (job.status ≡ cancelled))
                × ((retry_build tables (codes "b")).1 ≡ none)
                × ((new : BuildJob) × (get_by_id (retry_build tables (codes "b")).0 (codes "b")
                      ≡ some new)
                    × Reset job new))))
retry_build-cases_example = retry_build-cases tables (codes "b")

-- A manager with one distribution and no pending build.
abbrev idle : Manager
idle = record manager {
  store = record {
    jobs = second_job ∷ [];
    stages = [];
    logs = [];
    distributions =
        record {
          id = codes "d";
          owner_id = codes "o";
          status = dist_pending;
          error_message = [];
          updated_at = 0;
          started_at = none;
          completed_at = none;
        }
        ∷ [];
  };
  queue = [];
}

abbrev submission : Submission
submission = record {
  distribution_id = codes "d";
  user_id = codes "o";
  target_arch = x86_64;
  image_format = raw;
  clear_cache = false;
  config_json = some (codes "{}");
}

submission_accepted :
    ((submit_build idle (codes "n") 5 submission).1 ≡ none) × (list_pending idle.store ≡ [])
unfolding submit_build list_pending
submission_accepted = (refl, refl)

submit_build-cases_example :
    (((submit_build idle (codes "n") 5 submission).1 ≢ none)
      × ((submit_build idle (codes "n") 5 submission).0 ≡ idle))
    ⊎ (((submit_build idle (codes "n") 5 submission).1 ≡ none)
        × ((job : BuildJob) × Submitted idle
              (submit_build idle (codes "n") 5 submission).0
              (codes "n")
              job))
submit_build-cases_example = submit_build-cases idle (codes "n") 5 submission

submit-dispatch_twice_example :
    (job : BuildJob) × (job.id ≡ codes "n")
    × ((dispatch_pending_jobs (submit_build idle (codes "n") 5 submission).0).queue
        ≡ job ∷ job ∷ [])
submit-dispatch_twice_example =
    submit-dispatch_twice idle (codes "n") 5 submission submission_accepted.0 submission_accepted.1
      (omega arith)
