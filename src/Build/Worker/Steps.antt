-- ===== src/Build/Worker/Steps.antt =====
-- The world around the worker of ldfd/build/worker.go, and the steps in which it writes the tables.
use ldf.Prelude.{
  ℕ, ◌+◌, ◌*◌, ◌/◌, Text, codes, text_eq, print_nat, Bool, false, ◌||◌, if◌then◌else◌, List, [],
  ◌∷◌, ◌++◌, Option, none, is_nil,
}
use ldf.Build.Types.{
  StageName, BuildJob, BuildStage, stage_pending, info, error_level, dist_failed, Store,
}
use ldf.Build.Repository.{stage_name_text, update_stage, mark_failed}
use ldf.Build.Repository.Tables.{
  create_stage, mark_stage_completed, mark_stage_failed, append_log, update_distribution_status,
}
use ldf.Build.Arch.{HostSystem, RuntimeType}
use ldf.Build.Manager.{cancel_build, retry_build}

-- What `Validate` and `Execute` of a stage do.
pub data Answer : Type 0 where
  succeeds : Answer
  fails : Text → Answer
  panics : Text → Answer

-- What the handlers of the server do between two steps of the worker.
pub data Action : Type 0 where
  cancel : ℕ → Text → Action
  retry : Text → Action

-- One stage of the pipeline, and all that happens from its cancellation check to its end.
pub record StageRun : Type 0 where
  pub name : StageName
  pub now : ℕ
  pub before : List Action
  pub manager_stopped : Bool
  pub validation : Answer
  pub during : List Action
  pub reports : List (ℕ × Text)
  pub execution : Answer
  pub duration_ms : ℕ

pub record JobRun : Type 0 where
  pub started : ℕ
  pub config_error : Option Text
  pub system : HostSystem
  pub runtime : RuntimeType
  pub image : Text
  pub directory_error : Option Text
  pub stages : List StageRun
  pub artifact_path : Text
  pub artifact_checksum : Text
  pub artifact_size : ℕ
  pub ended : ℕ

-- The tables when the worker is done, and whether it removed the workspace.
pub record Finish : Type 0 where
  pub store : Store
  pub cleaned : Bool

unfoldable pub act : Store → Action → Store
unfolding cancel_build retry_build
act db (cancel now id) = (cancel_build db now id).0
act db (retry id) = (retry_build db id).0

unfoldable pub act_all : Store → List Action → Store
unfolding act
act_all db [] = db
act_all db (a ∷ actions) = act_all (act db a) actions

-- Whether the job's cancel function was called.
unfoldable pub cancels : Text → List Action → Bool
unfolding text_eq
cancels id [] = false
cancels id (cancel now other ∷ actions) = text_eq id other || cancels id actions
cancels id (retry other ∷ actions) = cancels id actions

-- `handleFailure`.
unfoldable pub handle_failure : Store → ℕ → BuildJob → Text → Text → Store
unfolding mark_failed update_distribution_status
handle_failure db now job message stage =
    let db' = (mark_failed db now job.id message stage).0 in
    (update_distribution_status db' now job.distribution_id dist_failed message).0

unfoldable pub log_line : Store → StageRun → BuildJob → Text → Store
unfolding append_log
log_line db run job message =
    (append_log db run.now job.id (stage_name_text run.name) info message).0

-- The branch of a stage that returned an error, in validation or in execution.
unfoldable pub stage_error : Store → StageRun → BuildJob → Text → Text → Text → Store
unfolding append_log mark_stage_failed handle_failure stage_name_text
stage_error db run job logged doing error =
    let name = stage_name_text run.name in
    let db₁ = (append_log db run.now job.id name error_level (logged ++ error)).0 in
    let db₂ = mark_stage_failed db₁ run.now job.id name error in
    handle_failure db₂ run.now job (codes "Stage " ++ (name ++ (doing ++ error))) name

-- The deferred `recover`: the stage named is that of the job as it was taken from the queue.
unfoldable pub panicked : Store → StageRun → BuildJob → Text → Store
unfolding handle_failure
panicked db run job cause =
    handle_failure db run.now job (codes "internal error (panic): " ++ cause) job.current_stage

-- The progress function that a stage is given.
unfoldable pub report : Store → BuildJob → StageRun → ℕ → ℕ → ℕ × Text → Store
unfolding update_stage log_line
report db job run total i (percent, message) =
    let db' = (update_stage db job.id run.name ((i * 100 + percent) / total)).0 in
    if is_nil message then db' else log_line db' run job message

unfoldable pub report_all : Store → BuildJob → StageRun → ℕ → ℕ → List (ℕ × Text) → Store
unfolding report
report_all db job run total i [] = db
report_all db job run total i (r ∷ reports) =
    report_all (report db job run total i r) job run total i reports

unfoldable pub finish_stage : Store → StageRun → BuildJob → Store
unfolding mark_stage_completed log_line stage_name_text
finish_stage db run job =
    log_line (mark_stage_completed db run.now job.id (stage_name_text run.name) run.duration_ms) run
      job (codes "Stage completed in " ++ (print_nat run.duration_ms ++ codes "ms"))

pub pending_stage : BuildJob → StageRun → BuildStage
unfolding stage_name_text
pending_stage job run = record {
  build_id = job.id;
  name = stage_name_text run.name;
  status = stage_pending;
  progress_percent = 0;
  started_at = none;
  completed_at = none;
  duration_ms = 0;
  error_message = [];
}

unfoldable pub create_stages : Store → BuildJob → List StageRun → Store
unfolding create_stage pending_stage
create_stages db job [] = db
create_stages db job (run ∷ runs) =
    create_stages (create_stage db (pending_stage job run)).0 job runs
