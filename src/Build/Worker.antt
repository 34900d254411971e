-- ===== src/Build/Worker.antt =====
-- `processJob` of ldfd/build/worker.go on one job. The world around the worker is given by a
-- `JobRun`: what the configuration, the machine and the stages answer, and what the handlers of the
-- server do to the tables in between. The worker only logs the errors of most table operations.
pub mod Steps
pub mod Progress
pub mod Frame
pub mod Isolation
pub mod Pipeline
pub mod Outcome
use ldf.Prelude.{
  ℕ, ◌+◌, ◌*◌, ◌/◌, Text, codes, text_eq, print_nat, Bool, true, false, ◌||◌, if◌then◌else◌, List,
  [], ◌∷◌, ◌++◌, Option, none, some, length, is_nil,
}
use ldf.Build.Types.{
  StageName, BuildJob, BuildStage, stage_pending, stage_running, info, error_level, dist_building,
  dist_ready, dist_failed, Store, DbError,
}
use ldf.Build.Repository.{mark_started, stage_name_text, update_stage, mark_completed, mark_failed}
use ldf.Build.Repository.Tables.{
  create_stage, update_stage_status, mark_stage_completed, mark_stage_failed, append_log,
  update_distribution_status,
}
use ldf.Build.Arch.{HostSystem, RuntimeType, validate_build_environment, executor_known}
use ldf.Build.Manager.{cancel_build, retry_build}
use ldf.Build.Worker.Steps.{
  Answer, succeeds, fails, panics, Action, cancel, retry, StageRun, JobRun, Finish, act, act_all,
  cancels, handle_failure, log_line, stage_error, panicked, report, report_all, finish_stage,
  create_stages,
}

-- How the loop over the stages goes on: to the next stage, with the cancellation seen so far, or out
-- of `processJob`.
pub data Next : Type 0 where
  goes_on : Store → Bool → Next
  ends : Finish → Next

-- What the loop's body does with the answer of `Execute`.
pub after_execution : Store → BuildJob → StageRun → Bool → Answer → Next
unfolding stage_error panicked finish_stage
after_execution db job run seen succeeds = goes_on (finish_stage db run job) seen
after_execution db job run seen (fails error) = ends (record {
  store = stage_error db run job (codes "Stage execution failed: ") (codes " failed: ") error;
  cleaned = true;
})
after_execution db job run seen (panics cause) =
    ends (record { store = panicked db run job cause; cleaned = false })

-- From `Execute` to the end of the loop's body.
pub execute_stage : Store → BuildJob → StageRun → ℕ → ℕ → Bool → Next
unfolding act_all cancels report_all after_execution
execute_stage db job run total i seen =
    after_execution (report_all (act_all db run.during) job run total i run.reports) job run
      (seen || cancels job.id run.during) run.execution

-- From the update of the current stage to the answer of `Validate`.
pub begin_stage : Store → BuildJob → StageRun → ℕ → ℕ → Store
unfolding update_stage update_stage_status log_line stage_name_text
begin_stage db job run total i =
    let db₁ = (update_stage db job.id run.name (i * 100 / total)).0 in
    let db₂ = update_stage_status db₁ run.now job.id (stage_name_text run.name) stage_running in
    log_line db₂ run job (codes "Starting stage: " ++ stage_name_text run.name)

-- What it does with the answer of `Validate`.
pub after_validation : Store → BuildJob → StageRun → ℕ → ℕ → Bool → Answer → Next
unfolding stage_error panicked execute_stage
after_validation db job run total i seen succeeds = execute_stage db job run total i seen
after_validation db job run total i seen (fails error) = ends (record {
  store =
      stage_error db run job (codes "Stage validation failed: ") (codes " validation failed: ")
        error;
  cleaned = true;
})
after_validation db job run total i seen (panics cause) =
    ends (record { store = panicked db run job cause; cleaned = false })

-- One round of the loop. `seen` says that the job's context is done.
unfoldable pub run_stage : Store → BuildJob → StageRun → ℕ → ℕ → Bool → Next
unfolding act_all cancels handle_failure begin_stage after_validation stage_name_text
run_stage db job run total i seen =
    let db₁ = act_all db run.before in
    let done = run.manager_stopped || (seen || cancels job.id run.before) in
    if done
    then ends (record {
      store = handle_failure db₁ run.now job (codes "Build cancelled") (stage_name_text run.name);
      cleaned = true;
    })
    else after_validation (begin_stage db₁ job run total i) job run total i done run.validation

pub then_next : Next → (Store → Bool → Next) → Next
then_next (ends finish) next = ends finish
then_next (goes_on db seen) next = next db seen

-- The loop over the stages from number `i` on.
unfoldable pub run_stages : Store → BuildJob → ℕ → ℕ → Bool → List StageRun → Next
unfolding run_stage then_next
run_stages db job total i seen [] = goes_on db seen
run_stages db job total i seen (run ∷ runs) =
    then_next (run_stage db job run total i seen)
      λ db' seen'. run_stages db' job total (i + 1) seen' runs

-- The end of a build whose stages all succeeded.
pub complete_job : Store → BuildJob → JobRun → Finish
unfolding mark_completed update_distribution_status append_log
complete_job db job run =
    let now = run.ended in
    let db₁ =
      (mark_completed db now job.id run.artifact_path run.artifact_checksum run.artifact_size).0 in
    let db₂ = (update_distribution_status db₁ now job.distribution_id dist_ready []).0 in
    let size = print_nat run.artifact_size in
    let db₃ =
      (append_log db₂ now job.id [] info (
        codes "Build completed successfully: "
        ++ (run.artifact_path ++ (codes " (" ++ (size ++ codes " bytes)"))))).0 in
    if job.clear_cache
    then record {
      store =
          (append_log db₃ now job.id [] info (codes "Clearing local build cache as requested")).0;
      cleaned = true;
    }
    else record { store = db₃; cleaned = false }

-- The checks before the pipeline: the first that fails gives the failure's message.
unfoldable pub preflight : JobRun → BuildJob → Option Text
unfolding validate_build_environment executor_known
preflight run job =
    let config_failure = if is_nil job.config_snapshot then none else run.config_error in
    elim config_failure [
      | some error ↦ some (codes "Failed to parse config snapshot: " ++ error)
      | none ↦ elim (validate_build_environment run.system run.runtime run.image job.target_arch) [
        | none ↦ some (codes "Build environment validation failed")
        | some env ↦ elim run.directory_error [
          | some error ↦ some (codes "Failed to create workspace directory: " ++ error)
          | none ↦
              if executor_known run.runtime
              then none
              else some (codes "Failed to create build executor")
        ]
      ]
    ]

pub end_of_pipeline : Next → BuildJob → JobRun → Finish
unfolding complete_job
end_of_pipeline (ends finish) job run = finish
end_of_pipeline (goes_on db seen) job run = complete_job db job run

-- The pipeline of a job whose preflight checks gave no error, or their failure.
pub after_preflight : Store → BuildJob → JobRun → Option Text → Finish
unfolding handle_failure create_stages run_stages end_of_pipeline
after_preflight db job run (some message) = record {
  store = handle_failure db run.started job message [];
  cleaned = false;
}
after_preflight db job run none =
    end_of_pipeline
      (run_stages (create_stages db job run.stages) job (length run.stages) 0 false run.stages) job
      run

-- `processJob` from the registration of the job's cancel function on.
unfoldable pub process_job : Store → BuildJob → JobRun → Finish
unfolding mark_started update_distribution_status preflight after_preflight
process_job db job run =
    let (db₁, error) = mark_started db run.started job.id in
    elim error [
      | some e ↦ record { store = db₁; cleaned = false }
      | none ↦
          after_preflight
            (update_distribution_status db₁ run.started job.distribution_id dist_building []).0 job
            run (preflight run job)
    ]
