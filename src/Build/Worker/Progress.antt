-- ===== src/Build/Worker/Progress.antt =====
-- The progress that a stage reports through the function of ldfd/build/worker.go.
use Prim.Native.Nat.{◌*◌, ◌/◌, ◌<◌}
use native.Mathlib.Nat.{le-div_iff_mul-le, div-mul-le_self, mul-div_right}
use ldf.Prelude.{
  subst, codes, ◌++◌, List, [], ◌∷◌, All, ℕ, ◌+◌, ◌≤◌, Text, true, some, ◌≡◌, refl, arith, ◌∙◌,
}
use ldf.Build.Types.{BuildJob, Store, info, stage_running}
use ldf.Build.Repository.{get_by_id, update_stage, stage_name_text}
use ldf.Build.Repository.Tables.{update_stage_status}
use ldf.Build.Repository.Rows.{
  is_present, exec_update-row, get-same_jobs, append_log-jobs, update_stage_status-jobs,
  is_present_of_row,
}
use ldf.Build.Worker.Steps.{StageRun, log_line, report, report_all}
use ldf.Build.Worker.{begin_stage}

div_mono : (a b k : ℕ) → 0 < k → a ≤ b → a / k ≤ b / k
div_mono a b k p h = (le-div_iff_mul-le p).1 (omega (arith, div-mul-le_self a k, h))

whole : (k : ℕ) → 0 < k → (k * 100) / k ≤ 100
whole k p = let e : k * 100 / k ≡ 100 = mul-div_right 100 p in omega (arith, e)

-- The row of a job while a stage reports: the stage's name, and a progress between the stage's start
-- and its end.
pub record InBand (db : Store) (id : Text) (run : StageRun) (total i : ℕ) : Type 0 where
  pub row : BuildJob
  pub found : get_by_id db id ≡ some row
  pub at_stage : row.current_stage ≡ stage_name_text run.name
  pub from_start : i * 100 / total ≤ row.progress_percent
  pub to_end : row.progress_percent ≤ (i + 1) * 100 / total
  pub at_most : row.progress_percent ≤ 100

InBand-same_jobs :
    (db db' : Store) {id : Text} {run : StageRun} {total i : ℕ}
    → db'.jobs ≡ db.jobs
    → InBand db id run total i
    → InBand db' id run total i
InBand-same_jobs db db' {id = id} e b = record {
  row = b.row;
  found = get-same_jobs db db' id e ∙ b.found;
  at_stage = b.at_stage;
  from_start = b.from_start;
  to_end = b.to_end;
  at_most = b.at_most;
}

InBand-is_present :
    (db : Store) (id : Text) {run : StageRun} {total i : ℕ}
    → InBand db id run total i
    → is_present db id ≡ true
InBand-is_present db id b = is_present_of_row db id b.found

update_stage-InBand :
    (db : Store) (job : BuildJob) (run : StageRun) (total i percent : ℕ)
    → is_present db job.id ≡ true
    → i < total
    → percent ≤ 100
    → InBand (update_stage db job.id run.name ((i * 100 + percent) / total)).0 job.id run total i
unfolding update_stage
update_stage-InBand db job run total i percent h l p =
    let (row, e, w) = exec_update-row db job.id _ (λ j. refl) h in
    record {
      row = _;
      found = w;
      at_stage = refl;
      from_start = div_mono (i * 100) (i * 100 + percent) total (omega arith) (omega arith);
      to_end = div_mono (i * 100 + percent) ((i + 1) * 100) total (omega arith) (omega (arith, p));
      at_most = omega (
        arith,
        div_mono (i * 100 + percent) (total * 100) total (omega arith) (omega (arith, l, p)),
        whole total (omega arith),
      );
    }

log_line-InBand :
    (db : Store) (run : StageRun) (job : BuildJob) (message : Text) {total i : ℕ}
    → InBand db job.id run total i
    → InBand (log_line db run job message) job.id run total i
unfolding log_line
log_line-InBand db run job message b =
    InBand-same_jobs db _
      (append_log-jobs db run.now job.id (stage_name_text run.name) info message) b

report-InBand :
    (db : Store) (job : BuildJob) (run : StageRun) (total i percent : ℕ) (message : Text)
    → is_present db job.id ≡ true
    → i < total
    → percent ≤ 100
    → InBand (report db job run total i (percent, message)) job.id run total i
unfolding report
report-InBand db job run total i percent [] h l p =
    update_stage-InBand db job run total i percent h l p
report-InBand db job run total i percent (c ∷ message) h l p =
    log_line-InBand _ run job (c ∷ message) (update_stage-InBand db job run total i percent h l p)

report_all-InBand :
    (rs : List (ℕ × Text)) (db : Store) (job : BuildJob) (run : StageRun) (total i : ℕ)
    → InBand db job.id run total i
    → i < total
    → All (λ r. r.0 ≤ 100) rs
    → InBand (report_all db job run total i rs) job.id run total i
unfolding report_all
report_all-InBand [] db job run total i b l a = b
report_all-InBand ((percent, message) ∷ rs) db job run total i b l a =
    report_all-InBand rs (report db job run total i (percent, message)) job run total i
      (report-InBand db job run total i percent message (InBand-is_present db job.id b) l a.0) l a.1

begin_stage-InBand :
    (db : Store) (job : BuildJob) (run : StageRun) (total i : ℕ)
    → is_present db job.id ≡ true
    → i < total
    → InBand (begin_stage db job run total i) job.id run total i
unfolding begin_stage
begin_stage-InBand db job run total i h l =
    let e : i * 100 + 0 ≡ i * 100 = omega arith in
    let db₁ = (update_stage db job.id run.name (i * 100 / total)).0 in
    let name = stage_name_text run.name in
    let db₂ = update_stage_status db₁ run.now job.id name stage_running in
    let first : InBand db₁ job.id run total i =
      subst (λ n. InBand (update_stage db job.id run.name (n / total)).0 job.id run total i) e
        (update_stage-InBand db job run total i 0 h l (omega arith)) in
    log_line-InBand db₂ run job (codes "Starting stage: " ++ name) (
      InBand-same_jobs db₁ db₂ (update_stage_status-jobs db₁ run.now job.id name stage_running)
        first)

-- Where stage number `i` of `total`, counted from 0, of a job that has a row begins and reports
-- percentages up to 100, and no handler writes in the meantime: the row names the stage, and its
-- progress lies between i and i + 1 parts out of `total` of 100, both rounded down, and is at most 100.
pub stage-InBand :
    (db : Store) (job : BuildJob) (run : StageRun) (total i : ℕ)
    → is_present db job.id ≡ true
    → i < total
    → All (λ r. r.0 ≤ 100) run.reports
    → InBand
        (report_all (begin_stage db job run total i) job run total i run.reports)
        job.id
        run
        total
        i
stage-InBand db job run total i h l a =
    report_all-InBand run.reports (begin_stage db job run total i) job run total i
      (begin_stage-InBand db job run total i h l) l a
