-- ===== src/Build/Worker/Outcome.antt =====
-- How a job ends that the worker of ldfd/build/worker.go takes up.
use ldf.Prelude.{ℕ, Text, true, false, [], Option, none, some, ◌≡◌, refl, arith, ◌∙◌, length}
use ldf.Build.Types.{BuildJob, completed, Store, dist_building}
use ldf.Build.Repository.{get_by_id, mark_started, mark_completed}
use ldf.Build.Repository.Tables.{update_distribution_status}
use ldf.Build.Repository.Rows.{is_present, exec_update-row, exec_update-ok, get-same_jobs}
use ldf.Build.Worker.{
  Next, goes_on, ends, run_stages, complete_job, end_of_pipeline, after_preflight, preflight,
  process_job,
}
use ldf.Build.Worker.Steps.{JobRun, create_stages}
use ldf.Build.Worker.Frame.{create_stages-kept, update_distribution_status-kept, mark_started-kept}
use ldf.Build.Worker.Pipeline.{
  failing_stage, failing_from, failing, presence, FailedAt, Pipeline, handle_failure-FailedAt,
  run_stages-Pipeline,
}

-- The row of a job that was completed with an artifact.
abbrev pub CompletedWith : Store → Text → JobRun → Type 0
CompletedWith db id run =
    (row : BuildJob) × (get_by_id db id ≡ some row)
    × (row.status ≡ completed)
    × (row.progress_percent ≡ 100)
    × (row.artifact_path ≡ run.artifact_path)
    × (row.artifact_checksum ≡ run.artifact_checksum)
    × (row.completed_at ≡ some run.ended)

pub complete_job-jobs :
    (db : Store) (job : BuildJob) (run : JobRun)
    → (complete_job db job run).store.jobs
      ≡ (mark_completed db run.ended job.id run.artifact_path run.artifact_checksum
          run.artifact_size).0.jobs
unfolding complete_job
complete_job-jobs db job run = ground arith

complete_job-CompletedWith :
    (db : Store) (job : BuildJob) (run : JobRun)
    → is_present db job.id ≡ true
    → CompletedWith (complete_job db job run).store job.id run
unfolding complete_job mark_completed
complete_job-CompletedWith db job run h =
    let (row, e, w) = exec_update-row db job.id _ (λ j. refl) h in
    (_, get-same_jobs _ _ job.id (complete_job-jobs db job run) ∙ w, refl, refl, refl, refl, refl)

-- How the job's row stands at the end.
abbrev pub Ended : Store → Text → JobRun → Option Text → Type 0
Ended db id run none = CompletedWith db id run
Ended db id run (some stage) = FailedAt db id stage

end_of_pipeline-Ended :
    (n : Next) (job : BuildJob) (run : JobRun) (o : Option Text)
    → Pipeline job n o
    → Ended (end_of_pipeline n job run).store job.id run o
unfolding end_of_pipeline
end_of_pipeline-Ended (ends finish) job run (some stage) p = p
end_of_pipeline-Ended (goes_on db seen) job run none p = complete_job-CompletedWith db job run p
end_of_pipeline-Ended (ends finish) job run none p = absurd p
end_of_pipeline-Ended (goes_on db seen) job run (some stage) p = absurd p

mark_started-ok :
    (db : Store) (now : ℕ) (id : Text) → is_present db id ≡ true → (mark_started db now id).1 ≡ none
unfolding mark_started
mark_started-ok db now id h = exec_update-ok db id _ h

after_preflight-Ended :
    (db : Store) (job : BuildJob) (run : JobRun) (o : Option Text)
    → is_present db job.id ≡ true
    → Ended (after_preflight db job run o).store job.id run (failing_from job run o)
unfolding after_preflight
after_preflight-Ended db job run (some message) h =
    handle_failure-FailedAt db run.started job message [] h
after_preflight-Ended db job run none h =
    end_of_pipeline-Ended
      (run_stages (create_stages db job run.stages) job (length run.stages) 0 false run.stages) job
      run (failing_stage job false run.stages)
      (run_stages-Pipeline run.stages (create_stages db job run.stages) job (length run.stages) 0
        false (create_stages-kept (presence job.id) db job run.stages ∙ h))

-- A job that has a row ends completed, with its artifact and 100 percent, if the preflight checks and
-- every stage get through. In every other case it ends failed, and the stage recorded is the one that
-- was cancelled or returned an error, the stage that the job had when it was taken from the queue if
-- a stage panicked, and none if a preflight check failed. Either way it does so whatever cancellations
-- and retries the handlers write into the tables in between.
pub process_job-Ended :
    (db : Store) (job : BuildJob) (run : JobRun)
    → is_present db job.id ≡ true
    → Ended (process_job db job run).store job.id run (failing run job)
unfolding process_job failing
process_job-Ended db job run h =
    let db₁ = (mark_started db run.started job.id).0 in
    let started = mark_started-ok db run.started job.id h in
    rw (started, process_job)
      (after_preflight-Ended
        (update_distribution_status db₁ run.started job.distribution_id dist_building []).0 job run
        (preflight run job)
        (update_distribution_status-kept (presence job.id) db₁ run.started job.distribution_id
            dist_building []
          ∙ (mark_started-kept (presence job.id) db run.started job.id tt ∙ h)))
