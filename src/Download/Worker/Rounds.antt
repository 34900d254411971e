-- ===== src/Download/Worker/Rounds.antt =====
-- What a round of ldfd/download/worker.go does to the table: a sequence of updates of rows, each of which
-- keeps the row's id and never lowers its count of retries.
use ldf.Prelude.{
  ℕ, ◌≤◌, Text, text_eq, List, [], ◌∷◌, ◌++◌, ◌≡◌, refl, arith, ◌⊎◌, inl, inr, Bool-cases, any, All,
  Option-cases, is_row_of_find_row,
}
use ldf.Download.Jobs.{
  DownloadJob, Tables, job_key, get_job, update_job, add_component_to_job, mark_job_started,
  update_progress, mark_job_completed, mark_verifying, mark_job_cancelled, increment_job_retry,
}
use ldf.Download.Jobs.Rows.{has_job, KeepsJob, has_job-update_job}
use ldf.Download.Downloader.{
  Artifact, Transfer, build_artifact_path, complete_download, write_progress, finish_transfer,
  run_transfer,
}
use ldf.Download.Control.{Action, cancel, retry, add_component, retry_job, act, act_all}

-- A change of a row that keeps its id and does not lower its count of retries.
abbrev pub Mild : (DownloadJob → DownloadJob) → Type 0
Mild f = KeepsJob f × ((row : DownloadJob) → row.retry_count ≤ (f row).retry_count)

-- Updates of the rows whose ids may be changed.
pub data Updates (Target : Text → Type 0) : Tables → Tables → Type 0 where
  unchanged : {db : Tables} → Updates Target db db
  updated :
      {db db' : Tables} (id : Text) (f : DownloadJob → DownloadJob)
      → Target id
      → Mild f
      → Updates Target (update_job db id f).0 db'
      → Updates Target db db'

-- The job of an action.
unfoldable pub target_of : Action → Text
target_of (cancel id) = id
target_of (retry id) = id
target_of (add_component id component_id) = id

retry_job-or :
    (db : Tables) (id : Text)
    → ((retry_job db id).0 ≡ db) ⊎ ((retry_job db id).0 ≡ (increment_job_retry db id).0)
unfolding retry_job
retry_job-or db id = ground arith

pub add_component_to_job-or :
    (db : Tables) (id component_id : Text)
    → ((add_component_to_job db id component_id).0 ≡ db)
      ⊎ ((ids : List Text) × ((add_component_to_job db id component_id).0
            ≡ (update_job db id (λ row. record row { component_ids = ids })).0))
unfolding add_component_to_job update_job get_job
add_component_to_job-or db id component_id = elim (Option-cases (get_job db id)) [
  | inl e ↦ rw (e, add_component_to_job) (inl refl)
  | inr (job, e) ↦ elim (Bool-cases (any (λ id. text_eq id component_id) job.component_ids)) [
    | inl known ↦ rw (e, known, add_component_to_job) (inl refl)
    | inr new ↦ inr (
      job.component_ids ++ component_id ∷ [],
      rw (e, new, add_component_to_job, is_row_of_find_row job_key id db.jobs e) refl,
    )
  ]
]

-- All the actions of a list are on jobs that may be changed.
abbrev pub AllTargets : (Text → Type 0) → List Action → Type 0
AllTargets Target actions = All (λ action. Target (target_of action)) actions

complete_download-table :
    (db : Tables) (now : ℕ) (job : DownloadJob) (artifact : Artifact)
    → (complete_download db now job artifact).0
      ≡ (mark_job_completed db now job.id
          (build_artifact_path job)
          artifact.checksum
          artifact.size).0
unfolding complete_download
complete_download-table db now job artifact = ground arith

module _ {Target : Text → Type 0} where
  pub Updates-append :
      {a b c : Tables} → Updates Target a b → Updates Target b c → Updates Target a c
  Updates-append unchanged v = v
  Updates-append (updated id f t m u) v = updated id f t m (Updates-append u v)

  pub Updates-one :
      (db : Tables) (id : Text) (f : DownloadJob → DownloadJob)
      → Target id
      → Mild f
      → Updates Target db (update_job db id f).0
  Updates-one db id f t m = updated id f t m unchanged

  pub has_job-Updates :
      {db db' : Tables} (id : Text) → Updates Target db db' → has_job db' id ≡ has_job db id
  has_job-Updates id unchanged = refl
  has_job-Updates {db = db} id (updated other f t m u) =
      rw (has_job-Updates id u) (has_job-update_job db other id f m.0)

  pub act-Updates :
      (now : ℕ) (action : Action) (db : Tables)
      → Target (target_of action)
      → Updates Target db (act now action db)
  unfolding act mark_job_cancelled increment_job_retry target_of
  act-Updates now (cancel id) db t = Updates-one db id _ t (λ row. refl, λ row. omega arith)
  act-Updates now (retry id) db t = elim (retry_job-or db id) [
    | inl e ↦ rw e unchanged
    | inr e ↦ rw e (Updates-one db id _ t (λ row. refl, λ row. omega arith))
  ]
  act-Updates now (add_component id component_id) db t =
      elim (add_component_to_job-or db id component_id) [
        | inl e ↦ rw e unchanged
        | inr (ids, e) ↦ rw e (Updates-one db id _ t (λ row. refl, λ row. omega arith))
      ]

  pub act_all-Updates :
      (now : ℕ) (actions : List Action) (db : Tables)
      → AllTargets Target actions
      → Updates Target db (act_all now actions db)
  unfolding act_all
  act_all-Updates now [] db t = unchanged
  act_all-Updates now (action ∷ actions) db t =
      Updates-append (act-Updates now action db t.0) (act_all-Updates now actions _ t.1)

  pub write_progress-Updates :
      (db : Tables) (id : Text) (steps : List (ℕ × ℕ))
      → Target id
      → Updates Target db (write_progress db id steps)
  unfolding write_progress update_progress
  write_progress-Updates db id [] t = unchanged
  write_progress-Updates db id ((received, total) ∷ rest) t =
      Updates-append (Updates-one db id _ t (λ row. refl, λ row. omega arith))
        (write_progress-Updates (update_progress db id received total).0 id rest t)

  complete_download-Updates :
      (db : Tables) (now : ℕ) (job : DownloadJob) (artifact : Artifact)
      → Target job.id
      → Updates Target db (complete_download db now job artifact).0
  unfolding mark_job_completed
  complete_download-Updates db now job artifact t =
      rw (complete_download-table db now job artifact)
        (Updates-one db job.id _ t (λ row. refl, λ row. omega arith))

  finish_transfer-Updates :
      (db : Tables) (now : ℕ) (job : DownloadJob) (transfer : Transfer)
      → Target job.id
      → Updates Target db (finish_transfer db now job transfer).0
  unfolding finish_transfer
  finish_transfer-Updates db now job transfer t =
      let progress = write_progress-Updates db job.id transfer.progress t in
      elim (Option-cases transfer.outcome) [
        | inl e ↦ rw e progress
        | inr (artifact, e) ↦
            rw e (Updates-append progress (complete_download-Updates _ now job artifact t))
      ]

  pub mark_job_started-Updates :
      (db : Tables) (now : ℕ) (id : Text)
      → Target id
      → Updates Target db (mark_job_started db now id).0
  unfolding mark_job_started
  mark_job_started-Updates db now id t = Updates-one db id _ t (λ row. refl, λ row. omega arith)

  pub run_transfer-Updates :
      (db : Tables) (now : ℕ) (job : DownloadJob) (meanwhile : Tables → Tables)
      (transfer : Transfer)
      → ((db' : Tables) → Updates Target db' (meanwhile db'))
      → Target job.id
      → Updates Target db (run_transfer db now job meanwhile transfer).0
  unfolding run_transfer
  run_transfer-Updates db now job meanwhile transfer m t =
      let started = mark_job_started-Updates db now job.id t in
      elim (Option-cases (mark_job_started db now job.id).1) [
        | inl e ↦
            rw (e, run_transfer)
              (Updates-append started
                (Updates-append (m _) (finish_transfer-Updates _ now job transfer t)))
        | inr (error, e) ↦ rw (e, run_transfer) started
      ]

  pub mark_verifying-Updates :
      (db : Tables) (id : Text) → Target id → Updates Target db (mark_verifying db id).0
  unfolding mark_verifying
  mark_verifying-Updates db id t = Updates-one db id _ t (λ row. refl, λ row. omega arith)
