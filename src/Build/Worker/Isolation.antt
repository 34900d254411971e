-- ===== src/Build/Worker/Isolation.antt =====
-- What the worker of ldfd/build/worker.go leaves alone while it runs a whole job.
use ldf.Prelude.{
  ℕ, ◌+◌, Text, codes, text_eq, Bool, false, ◌||◌, List, [], ◌∷◌, ◌++◌, Option, none, some, ◌≡◌,
  refl, ◌∙◌, length, All, Option-cases, Bool-cases, inl, inr,
}
use ldf.Build.Types.{BuildJob, Store, dist_building}
use ldf.Build.Repository.{get_by_id, mark_started, stage_name_text}
use ldf.Build.Repository.Tables.{update_distribution_status}
use ldf.Build.Repository.Rows.{get-same_jobs, get-exec_update_other}
use ldf.Build.Worker.{
  Next, goes_on, ends, begin_stage, after_execution, after_validation, execute_stage, run_stage,
  then_next, run_stages, complete_job, end_of_pipeline, after_preflight, preflight, process_job,
}
use ldf.Build.Worker.Steps.{
  Answer, succeeds, fails, panics, StageRun, JobRun, act_all, cancels, report_all, create_stages,
  panicked,
}
use ldf.Build.Worker.Outcome.{complete_job-jobs}
use ldf.Build.Worker.Frame.{
  Kept, AllTargets, act_all-kept, report_all-kept, begin_stage-kept, finish_stage-kept,
  create_stages-kept, update_distribution_status-kept, mark_started-kept, mark_completed-kept,
  handle_failure-kept, stage_error-kept,
}

abbrev store_of : Next → Store
store_of (goes_on db seen) = db
store_of (ends finish) = finish.store

-- What the handlers do in one stage stays within the allowed rows.
abbrev pub Within : (Text → Type 0) → StageRun → Type 0
Within Allowed run = AllTargets Allowed run.before × AllTargets Allowed run.during

module _ {A : Type 0} {view : Store → A} {Allowed : Text → Type 0} (k : Kept view Allowed) where
  module _ (job : BuildJob) (a : Allowed job.id) where
    after_execution-kept :
        (db : Store) (run : StageRun) (seen : Bool) (answer : Answer)
        → view (store_of (after_execution db job run seen answer)) ≡ view db
    unfolding after_execution panicked
    after_execution-kept db run seen succeeds = finish_stage-kept k db run job
    after_execution-kept db run seen (fails error) =
        stage_error-kept k db run job (codes "Stage execution failed: ") (codes " failed: ") error a
    after_execution-kept db run seen (panics cause) =
        handle_failure-kept k db run.now job (codes "internal error (panic): " ++ cause)
          job.current_stage a

    after_validation-kept :
        (db : Store) (run : StageRun) (total i : ℕ) (seen : Bool) (answer : Answer)
        → Within Allowed run
        → view (store_of (after_validation db job run total i seen answer)) ≡ view db
    unfolding after_validation execute_stage panicked
    after_validation-kept db run total i seen succeeds w =
        after_execution-kept (report_all (act_all db run.during) job run total i run.reports) run
          (seen || cancels job.id run.during) run.execution
        ∙ (report_all-kept k (act_all db run.during) job run total i run.reports a
            ∙ act_all-kept k db run.during w.1)
    after_validation-kept db run total i seen (fails error) w =
        stage_error-kept k db run job (codes "Stage validation failed: ")
          (codes " validation failed: ") error a
    after_validation-kept db run total i seen (panics cause) w =
        handle_failure-kept k db run.now job (codes "internal error (panic): " ++ cause)
          job.current_stage a

    run_stage-kept :
        (db : Store) (run : StageRun) (total i : ℕ) (seen : Bool)
        → Within Allowed run
        → view (store_of (run_stage db job run total i seen)) ≡ view db
    unfolding run_stage
    run_stage-kept db run total i seen w =
        let db₁ = act_all db run.before in
        let done = run.manager_stopped || (seen || cancels job.id run.before) in
        let acted = act_all-kept k db run.before w.0 in
        elim (Bool-cases done) [
          | inl e ↦
              rw (e, run_stage)
                (handle_failure-kept k db₁ run.now job (codes "Build cancelled")
                    (stage_name_text run.name) a
                  ∙ acted)
          | inr e ↦
              rw (e, run_stage)
                (after_validation-kept (begin_stage db₁ job run total i) run total i false
                    run.validation w
                  ∙ (begin_stage-kept k db₁ job run total i a ∙ acted))
        ]

    then_next-kept :
        (n : Next) (next : Store → Bool → Next)
        → ((db : Store) (seen : Bool) → view (store_of (next db seen)) ≡ view db)
        → view (store_of (then_next n next)) ≡ view (store_of n)
    unfolding then_next
    then_next-kept (ends finish) next h = refl
    then_next-kept (goes_on db seen) next h = h db seen

    run_stages-kept :
        (runs : List StageRun) (db : Store) (total i : ℕ) (seen : Bool)
        → All (Within Allowed) runs
        → view (store_of (run_stages db job total i seen runs)) ≡ view db
    unfolding run_stages
    run_stages-kept [] db total i seen w = refl
    run_stages-kept (run ∷ runs) db total i seen w =
        then_next-kept (run_stage db job run total i seen)
          (λ db' seen'. run_stages db' job total (i + 1) seen' runs)
          (λ db' seen'. run_stages-kept runs db' total (i + 1) seen' w.1)
        ∙ run_stage-kept db run total i seen w.0

    complete_job-kept : (db : Store) (run : JobRun) → view (complete_job db job run).store ≡ view db
    complete_job-kept db run =
        k.by_jobs _ _ (complete_job-jobs db job run)
        ∙ mark_completed-kept k db run.ended job.id run.artifact_path run.artifact_checksum
            run.artifact_size a

    end_of_pipeline-kept :
        (n : Next) (run : JobRun) → view (end_of_pipeline n job run).store ≡ view (store_of n)
    unfolding end_of_pipeline
    end_of_pipeline-kept (ends finish) run = refl
    end_of_pipeline-kept (goes_on db seen) run = complete_job-kept db run

    after_preflight-kept :
        (db : Store) (run : JobRun) (o : Option Text)
        → All (Within Allowed) run.stages
        → view (after_preflight db job run o).store ≡ view db
    unfolding after_preflight
    after_preflight-kept db run (some message) w =
        handle_failure-kept k db run.started job message [] a
    after_preflight-kept db run none w =
        let db₁ = create_stages db job run.stages in
        end_of_pipeline-kept (run_stages db₁ job (length run.stages) 0 false run.stages) run
        ∙ (run_stages-kept run.stages db₁ (length run.stages) 0 false w
            ∙ create_stages-kept k db job run.stages)

    process_job-kept :
        (db : Store) (run : JobRun)
        → All (Within Allowed) run.stages
        → view (process_job db job run).store ≡ view db
    unfolding process_job
    process_job-kept db run w =
        let db₁ = (mark_started db run.started job.id).0 in
        let d = job.distribution_id in
        elim (Option-cases (mark_started db run.started job.id).1) [
          | inl e ↦
              rw (e, process_job)
                (after_preflight-kept
                    (update_distribution_status db₁ run.started d dist_building []).0 run
                    (preflight run job) w
                  ∙ (update_distribution_status-kept k db₁ run.started d dist_building []
                      ∙ mark_started-kept k db run.started job.id a))
          | inr (error, e) ↦ rw (e, process_job) (mark_started-kept k db run.started job.id a)
        ]

-- The row of another job is not touched.
row_kept : (other : Text) → Kept (λ db. get_by_id db other) (λ id. text_eq id other ≡ false)
row_kept other = record {
  by_jobs = λ db db' e. get-same_jobs db db' other e;
  by_update = λ db id f keeps h. get-exec_update_other db id other f keeps h;
}

-- Running a job changes no row of a job with another id that the handlers do not cancel or retry in
-- the meantime, however the run ends.
pub process_job-other :
    (db : Store) (job : BuildJob) (run : JobRun) (other : Text)
    → text_eq job.id other ≡ false
    → All (Within (λ id. text_eq id other ≡ false)) run.stages
    → get_by_id (process_job db job run).store other ≡ get_by_id db other
process_job-other db job run other h w = process_job-kept (row_kept other) job h db run w
