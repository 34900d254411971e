-- ===== src/Build/Worker/Pipeline.antt =====
-- Where the pipeline of ldfd/build/worker.go fails, and how the loop over the stages ends.
use ldf.Prelude.{
  ℕ, ◌+◌, Text, codes, Bool, true, false, ◌||◌, if◌then◌else◌, List, [], ◌∷◌, ◌++◌, Option, none,
  some, ◌≡◌, refl, arith, ◌∙◌, Bool-cases, inl, inr,
}
use ldf.Build.Types.{BuildJob, failed, Store, dist_failed, error_level}
use ldf.Build.Repository.{get_by_id, mark_failed, stage_name_text}
use ldf.Build.Repository.Tables.{append_log, mark_stage_failed}
use ldf.Build.Repository.Rows.{
  is_present, is_present-exec_update, exec_update-row, get-same_jobs, is_present-same_jobs,
  update_distribution_status-jobs, append_log-jobs, mark_stage_failed-jobs,
}
use ldf.Build.Worker.{
  after_execution, after_validation, Next, goes_on, ends, then_next, begin_stage, execute_stage,
  run_stage, run_stages, preflight,
}
use ldf.Build.Worker.Steps.{
  Answer, Action, succeeds, fails, panics, StageRun, JobRun, cancels, act_all, report_all,
  handle_failure, stage_error, panicked,
}
use ldf.Build.Worker.Frame.{
  Kept, AllTargets, act_all-kept, report_all-kept, begin_stage-kept, finish_stage-kept,
}

-- The stage to record for an answer: a panic is recorded under the stage that the job had when it
-- was taken from the queue.
abbrev pub failing_answer : BuildJob → StageRun → Option Text → Answer → Option Text
failing_answer job run later succeeds = later
failing_answer job run later (fails error) = some (stage_name_text run.name)
failing_answer job run later (panics cause) = some job.current_stage

-- The stage by whose name the pipeline's failure is recorded, or none if every stage gets through: a
-- stage fails if the context is done when its turn comes, or by what `Validate` or `Execute` answers.
unfoldable pub failing_stage : BuildJob → Bool → List StageRun → Option Text
unfolding cancels stage_name_text
failing_stage job seen [] = none
failing_stage job seen (run ∷ runs) =
    let later = failing_stage job (cancels job.id run.during) runs in
    if run.manager_stopped || (seen || cancels job.id run.before)
    then some (stage_name_text run.name)
    else failing_answer job run (failing_answer job run later run.execution) run.validation

abbrev pub failing_from : BuildJob → JobRun → Option Text → Option Text
failing_from job run (some message) = some []
failing_from job run none = failing_stage job false run.stages

-- The same for the whole job: a failure before the pipeline is recorded under no stage.
unfoldable pub failing : JobRun → BuildJob → Option Text
unfolding preflight failing_stage
failing run job = failing_from job run (preflight run job)

-- Whether a job has a row is kept by everything that the worker does.
pub presence : (id : Text) → Kept (λ db. is_present db id) (λ _. Unit {0})
presence id = record {
  by_jobs = λ db db' e. is_present-same_jobs db db' id e;
  by_update = λ db other f keeps a. is_present-exec_update db other id f keeps;
}

any_targets : (actions : List Action) → AllTargets (λ _. Unit {0}) actions
any_targets [] = tt
any_targets (action ∷ actions) = (tt, any_targets actions)

-- The row of a job that failed at a stage.
abbrev pub FailedAt : Store → Text → Text → Type 0
FailedAt db id stage =
    (row : BuildJob) × (get_by_id db id ≡ some row)
    × (row.status ≡ failed)
    × (row.error_stage ≡ stage)

pub handle_failure-FailedAt :
    (db : Store) (now : ℕ) (job : BuildJob) (message stage : Text)
    → is_present db job.id ≡ true
    → FailedAt (handle_failure db now job message stage) job.id stage
unfolding handle_failure mark_failed
handle_failure-FailedAt db now job message stage h =
    let (row, e, w) = exec_update-row db job.id _ (λ j. refl) h in
    (
      _,
      get-same_jobs _ _ job.id
            (update_distribution_status-jobs _ now job.distribution_id dist_failed message)
          ∙ w,
      refl,
      refl,
    )

stage_error-FailedAt :
    (db : Store) (run : StageRun) (job : BuildJob) (logged doing error : Text)
    → is_present db job.id ≡ true
    → FailedAt (stage_error db run job logged doing error) job.id (stage_name_text run.name)
unfolding stage_error
stage_error-FailedAt db run job logged doing error h =
    let name = stage_name_text run.name in
    let db₁ = (append_log db run.now job.id name error_level (logged ++ error)).0 in
    let db₂ = mark_stage_failed db₁ run.now job.id name error in
    handle_failure-FailedAt db₂ run.now job (codes "Stage " ++ (name ++ (doing ++ error))) name (
      is_present-same_jobs db₁ db₂ job.id (mark_stage_failed-jobs db₁ run.now job.id name error)
      ∙ (is_present-same_jobs db db₁ job.id
            (append_log-jobs db run.now job.id name error_level (logged ++ error))
          ∙ h))

-- What a round of the loop has to show: the recorded failure, or a next round with the job's row there
-- and the cancellation as it was seen.
abbrev Round : BuildJob → Next → Option Text → Bool → Type 0
Round job (ends finish) (some stage) seen = FailedAt finish.store job.id stage
Round job (goes_on db seen') none seen = (is_present db job.id ≡ true) × (seen' ≡ seen)
Round job _ _ seen = ⊥

after_execution-Round :
    (db : Store) (job : BuildJob) (run : StageRun) (seen : Bool) (answer : Answer)
    → is_present db job.id ≡ true
    → Round job (after_execution db job run seen answer) (failing_answer job run none answer) seen
unfolding after_execution panicked
after_execution-Round db job run seen succeeds h =
    (finish_stage-kept (presence job.id) db run job ∙ h, refl)
after_execution-Round db job run seen (fails error) h =
    stage_error-FailedAt db run job (codes "Stage execution failed: ") (codes " failed: ") error h
after_execution-Round db job run seen (panics cause) h =
    handle_failure-FailedAt db run.now job (codes "internal error (panic): " ++ cause)
      job.current_stage h

after_validation-Round :
    (db : Store) (job : BuildJob) (run : StageRun) (total i : ℕ) (seen : Bool) (answer : Answer)
    → is_present db job.id ≡ true
    → Round job
        (after_validation db job run total i seen answer)
        (failing_answer job run (failing_answer job run none run.execution) answer)
        (seen || cancels job.id run.during)
unfolding after_validation execute_stage panicked
after_validation-Round db job run total i seen succeeds h =
    after_execution-Round (report_all (act_all db run.during) job run total i run.reports) job run
      (seen || cancels job.id run.during) run.execution
      (report_all-kept (presence job.id) (act_all db run.during) job run total i run.reports tt
        ∙ (act_all-kept (presence job.id) db run.during (any_targets run.during) ∙ h))
after_validation-Round db job run total i seen (fails error) h =
    stage_error-FailedAt db run job (codes "Stage validation failed: ")
      (codes " validation failed: ") error h
after_validation-Round db job run total i seen (panics cause) h =
    handle_failure-FailedAt db run.now job (codes "internal error (panic): " ++ cause)
      job.current_stage h

abbrev is_done : BuildJob → Bool → StageRun → Bool
is_done job seen run = run.manager_stopped || (seen || cancels job.id run.before)

-- What the loop has to show.
abbrev pub Pipeline : BuildJob → Next → Option Text → Type 0
Pipeline job (ends finish) (some stage) = FailedAt finish.store job.id stage
Pipeline job (goes_on db seen) none = is_present db job.id ≡ true
Pipeline job _ _ = ⊥

abbrev or_later : Option Text → Option Text → Option Text
or_later none later = later
or_later (some stage) later = some stage

failing_answer-or_later :
    (job : BuildJob) (run : StageRun) (later : Option Text) (first second : Answer)
    → failing_answer job run (failing_answer job run later second) first
      ≡ or_later (failing_answer job run (failing_answer job run none second) first) later
failing_answer-or_later job run later first second = ground arith

then_next-Pipeline :
    (job : BuildJob) (n : Next) (next : Store → Bool → Next) (o later : Option Text) (seen : Bool)
    → Round job n o seen
    → ((db : Store) → is_present db job.id ≡ true → Pipeline job (next db seen) later)
    → Pipeline job (then_next n next) (or_later o later)
unfolding then_next
then_next-Pipeline job (ends finish) next (some stage) later seen r k = r
then_next-Pipeline job (ends finish) next none later seen r k = absurd r
then_next-Pipeline job (goes_on db seen') next none later seen r k = rw r.1 (k db r.0)
then_next-Pipeline job (goes_on db seen') next (some stage) later seen r k = absurd r

-- A stage whose turn comes while the context is not done.
open_stage-Round :
    (db : Store) (job : BuildJob) (run : StageRun) (total i : ℕ)
    → is_present db job.id ≡ true
    → Round job
        (after_validation
          (begin_stage (act_all db run.before) job run total i)
          job
          run
          total
          i
          false
          run.validation)
        (failing_answer job run (failing_answer job run none run.execution) run.validation)
        (cancels job.id run.during)
open_stage-Round db job run total i h =
    after_validation-Round (begin_stage (act_all db run.before) job run total i) job run total i
      false run.validation
      (begin_stage-kept (presence job.id) (act_all db run.before) job run total i tt
        ∙ (act_all-kept (presence job.id) db run.before (any_targets run.before) ∙ h))

pub run_stages-Pipeline :
    (runs : List StageRun) (db : Store) (job : BuildJob) (total i : ℕ) (seen : Bool)
    → is_present db job.id ≡ true
    → Pipeline job (run_stages db job total i seen runs) (failing_stage job seen runs)
unfolding run_stages failing_stage run_stage
run_stages-Pipeline [] db job total i seen h = h
run_stages-Pipeline (run ∷ runs) db job total i seen h = elim (Bool-cases (is_done job seen run)) [
  | inl e ↦
      rw (e, then_next)
        (handle_failure-FailedAt (act_all db run.before) run.now job (codes "Build cancelled")
          (stage_name_text run.name)
          (act_all-kept (presence job.id) db run.before (any_targets run.before) ∙ h))
  | inr e ↦
      let later = failing_stage job (cancels job.id run.during) runs in
      rw (e, failing_answer-or_later job run later run.validation run.execution)
        (then_next-Pipeline job _ _ _ later (cancels job.id run.during)
          (open_stage-Round db job run total i h)
          λ db' h'. run_stages-Pipeline runs db' job total (i + 1) (cancels job.id run.during) h')
]
