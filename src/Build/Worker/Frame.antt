-- ===== src/Build/Worker/Frame.antt =====
-- What the worker of ldfd/build/worker.go leaves alone: whatever is read off the jobs and is kept by
-- every update of a row that is allowed is kept by the worker on allowed rows.
use ldf.Prelude.{
  ℕ, ◌*◌, ◌/◌, Text, List, [], ◌∷◌, ◌≡◌, refl, arith, ap, ◌∙◌, ◌⊎◌, inl, inr, All, codes, ◌++◌,
  print_nat,
}
use ldf.Build.Types.{
  StageName, BuildJob, DistributionStatus, Store, stage_running, dist_failed, error_level,
}
use ldf.Build.Repository.{
  exec_update, stage_name_text, update_stage, mark_failed, mark_started, mark_completed,
  mark_cancelled, increment_retry,
}
use ldf.Build.Repository.Rows.{
  KeepsId, create_stage-jobs, update_stage_status-jobs, mark_stage_completed-jobs,
  mark_stage_failed-jobs, append_log-jobs, update_distribution_status-jobs,
}
use ldf.Build.Repository.Tables.{
  update_distribution_status, update_stage_status, mark_stage_completed, mark_stage_failed,
  create_stage, append_log,
}
use ldf.Build.Manager.{retry_build}
use ldf.Build.Worker.{begin_stage}
use ldf.Build.Worker.Steps.{
  pending_stage, Action, cancel, retry, StageRun, act, act_all, handle_failure, log_line,
  stage_error, report, report_all, finish_stage, create_stages,
}

retry_build-store :
    (db : Store) (id : Text)
    → ((retry_build db id).0 ≡ db) ⊎ ((retry_build db id).0 ≡ (increment_retry db id).0)
unfolding retry_build
retry_build-store db id = ground arith

-- A view of the tables that only the jobs can change, and only by rows outside `Allowed`.
pub record Kept {A : Type 0} (view : Store → A) (Allowed : Text → Type 0) : Type 0 where
  pub by_jobs : (db db' : Store) → db'.jobs ≡ db.jobs → view db' ≡ view db
  pub by_update :
      (db : Store) (id : Text) (f : BuildJob → BuildJob)
      → KeepsId f
      → Allowed id
      → view (exec_update db id f).0 ≡ view db

abbrev pub target : Action → Text
target (cancel now id) = id
target (retry id) = id

abbrev pub AllTargets : (Text → Type 0) → List Action → Type 0
AllTargets Allowed actions = All (λ a. Allowed (target a)) actions

module _ {A : Type 0} {view : Store → A} {Allowed : Text → Type 0} (k : Kept view Allowed) where
  pub increment_retry-kept :
      (db : Store) (id : Text) → Allowed id → view (increment_retry db id).0 ≡ view db
  unfolding increment_retry
  increment_retry-kept db id a = k.by_update db id _ (λ j. refl) a

  pub act-kept :
      (db : Store) (action : Action) → Allowed (target action) → view (act db action) ≡ view db
  unfolding act mark_cancelled
  act-kept db (cancel now id) a = k.by_update db id _ (λ j. refl) a
  act-kept db (retry id) a = elim (retry_build-store db id) [
    | inl e ↦ ap view e
    | inr e ↦ ap view e ∙ increment_retry-kept db id a
  ]

  pub act_all-kept :
      (db : Store) (actions : List Action)
      → AllTargets Allowed actions
      → view (act_all db actions) ≡ view db
  unfolding act_all
  act_all-kept db [] h = refl
  act_all-kept db (action ∷ actions) h =
      act_all-kept (act db action) actions h.1 ∙ act-kept db action h.0

  pub mark_failed-kept :
      (db : Store) (now : ℕ) (job message stage : Text)
      → Allowed job
      → view (mark_failed db now job message stage).0 ≡ view db
  unfolding mark_failed
  mark_failed-kept db now job message stage a = k.by_update db job _ (λ j. refl) a

  pub update_stage-kept :
      (db : Store) (job : Text) (stage : StageName) (percent : ℕ)
      → Allowed job
      → view (update_stage db job stage percent).0 ≡ view db
  unfolding update_stage
  update_stage-kept db job stage percent a = k.by_update db job _ (λ j. refl) a

  pub log_line-kept :
      (db : Store) (run : StageRun) (job : BuildJob) (message : Text)
      → view (log_line db run job message) ≡ view db
  unfolding log_line
  log_line-kept db run job message = k.by_jobs db _ (append_log-jobs db run.now job.id _ _ message)

  pub report-kept :
      (db : Store) (job : BuildJob) (run : StageRun) (total i : ℕ) (r : ℕ × Text)
      → Allowed job.id
      → view (report db job run total i r) ≡ view db
  unfolding report
  report-kept db job run total i (percent, []) a = update_stage-kept db job.id run.name _ a
  report-kept db job run total i (percent, c ∷ message) a =
      log_line-kept _ run job (c ∷ message) ∙ update_stage-kept db job.id run.name _ a

  pub report_all-kept :
      (db : Store) (job : BuildJob) (run : StageRun) (total i : ℕ) (rs : List (ℕ × Text))
      → Allowed job.id
      → view (report_all db job run total i rs) ≡ view db
  unfolding report_all
  report_all-kept db job run total i [] a = refl
  report_all-kept db job run total i (r ∷ rs) a =
      report_all-kept (report db job run total i r) job run total i rs a
      ∙ report-kept db job run total i r a

  pub begin_stage-kept :
      (db : Store) (job : BuildJob) (run : StageRun) (total i : ℕ)
      → Allowed job.id
      → view (begin_stage db job run total i) ≡ view db
  unfolding begin_stage
  begin_stage-kept db job run total i a =
      let name = stage_name_text run.name in
      let db₁ = (update_stage db job.id run.name (i * 100 / total)).0 in
      let db₂ = update_stage_status db₁ run.now job.id name stage_running in
      log_line-kept db₂ run job (codes "Starting stage: " ++ name)
      ∙ (k.by_jobs db₁ db₂ (update_stage_status-jobs db₁ run.now job.id name stage_running)
          ∙ update_stage-kept db job.id run.name (i * 100 / total) a)

  pub finish_stage-kept :
      (db : Store) (run : StageRun) (job : BuildJob) → view (finish_stage db run job) ≡ view db
  unfolding finish_stage
  finish_stage-kept db run job =
      let name = stage_name_text run.name in
      let db₁ = mark_stage_completed db run.now job.id name run.duration_ms in
      log_line-kept db₁ run job
        (codes "Stage completed in " ++ (print_nat run.duration_ms ++ codes "ms"))
      ∙ k.by_jobs db db₁ (mark_stage_completed-jobs db run.now job.id name run.duration_ms)

  pub create_stages-kept :
      (db : Store) (job : BuildJob) (runs : List StageRun)
      → view (create_stages db job runs) ≡ view db
  unfolding create_stages
  create_stages-kept db job [] = refl
  create_stages-kept db job (run ∷ runs) =
      let db₁ = (create_stage db (pending_stage job run)).0 in
      create_stages-kept db₁ job runs
      ∙ k.by_jobs db db₁ (create_stage-jobs db (pending_stage job run))

  pub update_distribution_status-kept :
      (db : Store) (now : ℕ) (d : Text) (status : DistributionStatus) (message : Text)
      → view (update_distribution_status db now d status message).0 ≡ view db
  update_distribution_status-kept db now d status message =
      k.by_jobs db _ (update_distribution_status-jobs db now d status message)

  pub mark_started-kept :
      (db : Store) (now : ℕ) (job : Text) → Allowed job → view (mark_started db now job).0 ≡ view db
  unfolding mark_started
  mark_started-kept db now job a = k.by_update db job _ (λ j. refl) a

  pub mark_completed-kept :
      (db : Store) (now : ℕ) (job path checksum : Text) (size : ℕ)
      → Allowed job
      → view (mark_completed db now job path checksum size).0 ≡ view db
  unfolding mark_completed
  mark_completed-kept db now job path checksum size a = k.by_update db job _ (λ j. refl) a

  pub handle_failure-kept :
      (db : Store) (now : ℕ) (job : BuildJob) (message stage : Text)
      → Allowed job.id
      → view (handle_failure db now job message stage) ≡ view db
  unfolding handle_failure
  handle_failure-kept db now job message stage a =
      update_distribution_status-kept (mark_failed db now job.id message stage).0 now
        job.distribution_id dist_failed message
      ∙ mark_failed-kept db now job.id message stage a

  pub stage_error-kept :
      (db : Store) (run : StageRun) (job : BuildJob) (logged doing error : Text)
      → Allowed job.id
      → view (stage_error db run job logged doing error) ≡ view db
  unfolding stage_error
  stage_error-kept db run job logged doing error a =
      let name = stage_name_text run.name in
      let db₁ = (append_log db run.now job.id name error_level (logged ++ error)).0 in
      let db₂ = mark_stage_failed db₁ run.now job.id name error in
      handle_failure-kept db₂ run.now job (codes "Stage " ++ (name ++ (doing ++ error))) name a
      ∙ (k.by_jobs db₁ db₂ (mark_stage_failed-jobs db₁ run.now job.id name error)
          ∙ k.by_jobs db db₁ (append_log-jobs db run.now job.id name error_level (logged ++ error)))
