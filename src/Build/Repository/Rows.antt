-- ===== src/Build/Repository/Rows.antt =====
-- What the statements of ldfd/db/build_jobs.go and ldfd/db/distribution.go do to a job's row.
use ldf.Prelude.{
  ℕ, Text, text_eq, text_eq_iff, Bool, true, false, List, [], ◌∷◌, none, some, any, find_first, ◌≡◌,
  refl, arith, Bool-cases, inl, inr,
}
use mathlib.Core.Option
use ldf.Build.Types.{BuildJob, BuildStage, StageStatus, LogLevel, DistributionStatus, Store}
use ldf.Build.Repository.{has_id, update_rows, get_by_id, exec_update}
use ldf.Build.Repository.Tables.{
  create_stage, update_stage_status, mark_stage_completed, mark_stage_failed, append_log,
  update_distribution_status,
}

-- A change of a row that leaves its key alone.
abbrev pub KeepsId : (BuildJob → BuildJob) → Type 0
KeepsId f = (job : BuildJob) → (f job).id ≡ job.id

update_rows_self :
    (id : Text) (f : BuildJob → BuildJob) (jobs : List BuildJob)
    → KeepsId f
    → find_first (has_id id) (update_rows id f jobs) ≡ Option.map f (find_first (has_id id) jobs)
update_rows_self id f [] k = refl
update_rows_self id f (job ∷ jobs) k = ground (arith, k job, update_rows_self id f jobs k)

update_rows-other :
    (id other : Text) (f : BuildJob → BuildJob) (jobs : List BuildJob)
    → KeepsId f
    → text_eq id other ≡ false
    → find_first (has_id other) (update_rows id f jobs) ≡ find_first (has_id other) jobs
update_rows-other id other f [] k h = refl
update_rows-other id other f (job ∷ jobs) k h = ground (
  arith,
  k job,
  update_rows-other id other f jobs k,
  text_eq_iff id job.id,
  text_eq_iff other job.id,
  text_eq_iff id other,
)

find_first-none :
    (id : Text) (jobs : List BuildJob)
    → any (has_id id) jobs ≡ false
    → find_first (has_id id) jobs ≡ none
find_first-none id [] h = refl
find_first-none id (job ∷ jobs) h = ground (arith, find_first-none id jobs)

pub get-exec_update :
    (db : Store) (id : Text) (f : BuildJob → BuildJob)
    → KeepsId f
    → get_by_id (exec_update db id f).0 id ≡ Option.map f (get_by_id db id)
unfolding get_by_id exec_update
get-exec_update db id f k =
    ground (arith, update_rows_self id f db.jobs k, find_first-none id db.jobs)

pub get-exec_update_other :
    (db : Store) (id other : Text) (f : BuildJob → BuildJob)
    → KeepsId f
    → text_eq id other ≡ false
    → get_by_id (exec_update db id f).0 other ≡ get_by_id db other
unfolding get_by_id exec_update
get-exec_update_other db id other f k h = ground (arith, update_rows-other id other f db.jobs k)

-- Whether a job has a row.
unfoldable pub is_present : Store → Text → Bool
unfolding text_eq
is_present db id = any (has_id id) db.jobs

any-update_rows :
    (id other : Text) (f : BuildJob → BuildJob) (jobs : List BuildJob)
    → KeepsId f
    → any (has_id other) (update_rows id f jobs) ≡ any (has_id other) jobs
any-update_rows id other f [] k = refl
any-update_rows id other f (job ∷ jobs) k = ground (arith, k job, any-update_rows id other f jobs k)

pub is_present-exec_update :
    (db : Store) (id other : Text) (f : BuildJob → BuildJob)
    → KeepsId f
    → is_present (exec_update db id f).0 other ≡ is_present db other
unfolding is_present exec_update
is_present-exec_update db id other f k = ground (arith, any-update_rows id other f db.jobs k)

find_first-some :
    (id : Text) (jobs : List BuildJob)
    → any (has_id id) jobs ≡ true
    → (job : BuildJob) × (find_first (has_id id) jobs ≡ some job)
find_first-some id [] h = cc
find_first-some id (job ∷ jobs) h = elim (Bool-cases (has_id id job)) [
  | inl e ↦ (job, rw e)
  | inr e ↦ rw e (find_first-some id jobs (rw e at h))
]

pub row_of_is_present :
    (db : Store) (id : Text)
    → is_present db id ≡ true
    → (job : BuildJob) × (get_by_id db id ≡ some job)
unfolding get_by_id is_present
row_of_is_present db id h = find_first-some id db.jobs h

-- An update of a job that has a row writes the new row.
pub exec_update-row :
    (db : Store) (id : Text) (f : BuildJob → BuildJob)
    → KeepsId f
    → is_present db id ≡ true
    → (job : BuildJob) × (get_by_id db id ≡ some job)
      × (get_by_id (exec_update db id f).0 id ≡ some (f job))
exec_update-row db id f k h =
    let (job, e) = row_of_is_present db id h in (job, e, ground (arith, get-exec_update db id f k))

-- The other tables' statements keep the jobs.
pub create_stage-jobs : (db : Store) (stage : BuildStage) → (create_stage db stage).0.jobs ≡ db.jobs
unfolding create_stage
create_stage-jobs db stage = ground arith

module _ (db : Store) (now : ℕ) (build_id : Text) where
  pub update_stage_status-jobs :
      (name : Text) (status : StageStatus)
      → (update_stage_status db now build_id name status).jobs ≡ db.jobs
  unfolding update_stage_status
  update_stage_status-jobs name status = refl

  pub mark_stage_completed-jobs :
      (name : Text) (ms : ℕ) → (mark_stage_completed db now build_id name ms).jobs ≡ db.jobs
  unfolding mark_stage_completed
  mark_stage_completed-jobs name ms = refl

  pub mark_stage_failed-jobs :
      (name message : Text) → (mark_stage_failed db now build_id name message).jobs ≡ db.jobs
  unfolding mark_stage_failed
  mark_stage_failed-jobs name message = refl

  pub append_log-jobs :
      (stage : Text) (level : LogLevel) (message : Text)
      → (append_log db now build_id stage level message).0.jobs ≡ db.jobs
  unfolding append_log
  append_log-jobs stage level message = ground arith

  pub update_distribution_status-jobs :
      (status : DistributionStatus) (message : Text)
      → (update_distribution_status db now build_id status message).0.jobs ≡ db.jobs
  unfolding update_distribution_status
  update_distribution_status-jobs status message = ground arith

-- Rows are read from the jobs alone.
pub get-same_jobs :
    (db db' : Store) (id : Text) → db'.jobs ≡ db.jobs → get_by_id db' id ≡ get_by_id db id
unfolding get_by_id
get-same_jobs db db' id e = rw e

pub is_present-same_jobs :
    (db db' : Store) (id : Text) → db'.jobs ≡ db.jobs → is_present db' id ≡ is_present db id
unfolding is_present
is_present-same_jobs db db' id e = rw e

pub exec_update-ok :
    (db : Store) (id : Text) (f : BuildJob → BuildJob)
    → is_present db id ≡ true
    → (exec_update db id f).1 ≡ none
unfolding is_present exec_update
exec_update-ok db id f h = ground arith

has_id-any :
    (id : Text) (jobs : List BuildJob) {job : BuildJob}
    → find_first (has_id id) jobs ≡ some job
    → any (has_id id) jobs ≡ true
has_id-any id [] h = cc
has_id-any id (job ∷ jobs) {job = found} h = ground (arith, has_id-any id jobs {job = found})

pub is_present_of_row :
    (db : Store) (id : Text) {job : BuildJob} → get_by_id db id ≡ some job → is_present db id ≡ true
unfolding get_by_id is_present
is_present_of_row db id h = has_id-any id db.jobs h
