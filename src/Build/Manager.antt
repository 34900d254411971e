-- ===== src/Build/Manager.antt =====
-- The operations of ldfd/build/manager.go that change build jobs. The job queue is a list whose
-- capacity is twice the number of workers.
pub mod Lifecycle
pub mod Submit
use ldf.Prelude.{
  ℕ, ◌*◌, Text, codes, Bool, true, false, ltb, ◌==◌, if◌then◌else◌, List, [], ◌∷◌, ◌++◌, Option,
  none, some, length, ◌||◌,
}
use ldf.Build.Types.{
  BuildJobStatus, pending, failed, cancelled, TargetArch, ImageFormat, BuildJob, Store, DbError,
}
use ldf.Build.Repository.{get_by_id, create, mark_cancelled, increment_retry, list_pending}

pub record Config : Type 0 where
  pub workers : ℕ
  pub workspace_base : Text
  pub container_image : Text
  pub container_runtime : Text
  pub retry_delay : ℕ
  pub max_retries : ℕ

unfoldable pub default_config : Config
default_config = record {
  workers = 1;
  workspace_base = codes "~/.ldfd/cache/builds";
  container_image = codes "ldf-builder:latest";
  container_runtime = codes "podman";
  retry_delay = 30000000000;
  max_retries = 1;
}

or_default : Text → Text → Text
or_default [] d = d
or_default (c ∷ s) d = c ∷ s

-- What `NewManager` makes of its configuration.
unfoldable pub normalized : Config → Config
unfolding or_default default_config
normalized cfg = record {
  workers = if cfg.workers == 0 then default_config.workers else cfg.workers;
  workspace_base = or_default cfg.workspace_base default_config.workspace_base;
  container_image = or_default cfg.container_image default_config.container_image;
  container_runtime = or_default cfg.container_runtime default_config.container_runtime;
  retry_delay = if cfg.retry_delay == 0 then default_config.retry_delay else cfg.retry_delay;
  max_retries = if cfg.max_retries == 0 then default_config.max_retries else cfg.max_retries;
}

-- The tables, and the jobs that wait for a worker.
pub record Manager : Type 0 where
  pub store : Store
  pub queue : List BuildJob
  pub config : Config

pub data ManagerError : Type 0 where
  no_configuration build_not_found not_retryable : ManagerError
  db_error : DbError → ManagerError

has_room : Manager → Bool
has_room m = ltb (length m.queue) (m.config.workers * 2)

-- The send on the queue under `select` with a `default`.
unfoldable pub try_enqueue : Manager → BuildJob → Manager
unfolding has_room
try_enqueue m job = if has_room m then record m { queue = m.queue ++ job ∷ [] } else m

-- The loop of `dispatchPendingJobs`, which returns at the first job that finds no room.
dispatch_jobs : List BuildJob → Manager → Manager
unfolding has_room
dispatch_jobs [] m = m
dispatch_jobs (job ∷ jobs) m =
    let rest = dispatch_jobs jobs (record m { queue = m.queue ++ job ∷ [] }) in
    if has_room m then rest else m

unfoldable pub dispatch_pending_jobs : Manager → Manager
unfolding dispatch_jobs list_pending
dispatch_pending_jobs m = dispatch_jobs (list_pending m.store) m

pub record Submission : Type 0 where
  pub distribution_id : Text
  pub user_id : Text
  pub target_arch : TargetArch
  pub image_format : ImageFormat
  pub clear_cache : Bool
  pub config_json : Option Text

submitted_job : Manager → Submission → Text → BuildJob
submitted_job m sub json = record {
  id = [];
  distribution_id = sub.distribution_id;
  owner_id = sub.user_id;
  status = pending;
  current_stage = [];
  target_arch = sub.target_arch;
  image_format = sub.image_format;
  progress_percent = 0;
  workspace_path = [];
  artifact_path = [];
  artifact_checksum = [];
  artifact_size = 0;
  error_message = [];
  error_stage = [];
  retry_count = 0;
  max_retries = m.config.max_retries;
  clear_cache = sub.clear_cache;
  config_snapshot = json;
  created_at = 0;
  started_at = none;
  completed_at = none;
}

-- `SubmitBuild`; `config_json` is none where the distribution has no configuration.
unfoldable pub submit_build : Manager → Text → ℕ → Submission → Manager × Option ManagerError
unfolding create submitted_job try_enqueue
submit_build m fresh_id now sub = elim sub.config_json [
  | none ↦ (m, some no_configuration)
  | some json ↦
      let (db, job, error) = create m.store fresh_id now (submitted_job m sub json) in
      elim error [
        | some e ↦ (m, some (db_error e))
        | none ↦ (try_enqueue (record m { store = db }) job, none)
      ]
]

-- `CancelBuild`, the cancel function aside: the worker's own model takes that signal.
unfoldable pub cancel_build : Store → ℕ → Text → Store × Option DbError
unfolding mark_cancelled
cancel_build db now id = mark_cancelled db now id

can_retry : BuildJobStatus → Bool
can_retry failed = true
can_retry cancelled = true
can_retry _ = false

retry_result : Store × Option DbError → Store × Option ManagerError
retry_result (db, none) = (db, none)
retry_result (db, some e) = (db, some (db_error e))

-- `RetryBuild`.
unfoldable pub retry_build : Store → Text → Store × Option ManagerError
unfolding get_by_id increment_retry can_retry retry_result
retry_build db id = elim (get_by_id db id) [
  | none ↦ (db, some build_not_found)
  | some job ↦
      if can_retry job.status
      then retry_result (increment_retry db id)
      else (db, some not_retryable)
]
