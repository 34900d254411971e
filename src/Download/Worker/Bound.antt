-- ===== src/Download/Worker/Bound.antt =====
-- How often `processJob` of ldfd/download/worker.go tries, and what it counts.
use ldf.Prelude.{
  ℕ, zero, suc, ◌+◌, ◌≤◌, Text, codes, text_eq, Bool, true, false, Option, none, some, ◌≡◌, refl,
  arith, subst, ◌∙◌, ◌++◌, ◌==◌, if◌then◌else◌, inl, inr, Bool-cases, Option-cases, text_eq_iff, [],
}
use ldf.Download.Jobs.{DownloadJob, job_pending, Tables, get_job, update_job, increment_job_retry}
use ldf.Download.Jobs.Rows.{has_job, other-update_job, row-update_job}
use ldf.Download.Mirror.{MirrorResolver}
use ldf.Download.Control.{act_all}
use ldf.Download.Worker.{Round, attempt, begin_round, is_stopped, process_from, process_job}
use ldf.Download.Worker.Rounds.{has_job-Updates, Updates, unchanged, updated, Mild, act_all-Updates}
use ldf.Download.Worker.Loop.{
  Any, action-Any, round-Any, attempt-Updates, begin_round-Updates, fail_job-Updates,
}

retries_of : Option DownloadJob → ℕ
retries_of none = 0
retries_of (some row) = row.retry_count

-- The retries that a job's row counts.
unfoldable pub retries : Tables → Text → ℕ
unfolding retries_of get_job
retries db id = retries_of (get_job db id)

update_job-missing :
    (db : Tables) (id : Text) (f : DownloadJob → DownloadJob)
    → has_job db id ≡ false
    → (update_job db id f).0 ≡ db
unfolding update_job has_job
update_job-missing db id f h = rw (h, update_job) refl

retries-update_same :
    (db : Tables) (id : Text) (f : DownloadJob → DownloadJob)
    → Mild f
    → retries db id ≤ retries (update_job db id f).0 id
unfolding retries retries_of
retries-update_same db id f m = elim (Bool-cases (has_job db id)) [
  | inr missing ↦ rw (update_job-missing db id f missing) (omega arith)
  | inl known ↦ let (row, e, e') = row-update_job db id f m.0 known in rw (e, e') (m.1 row)
]

retries-update_job :
    (db : Tables) (id other : Text) (f : DownloadJob → DownloadJob)
    → Mild f
    → retries db other ≤ retries (update_job db id f).0 other
unfolding retries
retries-update_job db id other f m = elim (Bool-cases (text_eq id other)) [
  | inr apart ↦ rw (other-update_job db id other f m.0 apart) (omega arith)
  | inl same ↦
      subst (λ x. retries db x ≤ retries (update_job db id f).0 x) ((text_eq_iff id other).0 same)
        (retries-update_same db id f m)
]

retries-Updates :
    (id : Text) {Target : Text → Type 0} {db db' : Tables}
    → Updates Target db db'
    → retries db id ≤ retries db' id
retries-Updates id unchanged = omega arith
retries-Updates id {db = db} (updated other f t m u) =
    let first = retries-update_job db other id f m in let rest = retries-Updates id u in omega arith

increment-retries :
    (db : Tables) (id : Text)
    → has_job db id ≡ true
    → retries (increment_job_retry db id).0 id ≡ retries db id + 1
unfolding retries increment_job_retry retries_of
increment-retries db id h =
    let f : DownloadJob → DownloadJob = λ job. record job {
      retry_count = job.retry_count + 1;
      status = job_pending;
      error_message = [];
    } in
    let (row, e, e') = row-update_job db id f (λ job. refl) h in rw (e, e') refl

-- How many of the rounds before a round are not counted as retries.
uncounted : ℕ → ℕ
uncounted k = if k == 0 then 1 else k

uncounted_next : (k : ℕ) → uncounted (k + 1) ≡ k + 1
unfolding uncounted
uncounted_next k = ground arith

uncounted_least : (k : ℕ) → k ≤ uncounted k
unfolding uncounted
uncounted_least k = ground arith

begin_round-retries :
    (k : ℕ) (job : DownloadJob) (round : Round) (db : Tables)
    → has_job db job.id ≡ true
    → retries db job.id + (k + 1) ≤ retries (begin_round k job round db) job.id + uncounted k
unfolding begin_round uncounted
begin_round-retries zero job round db h = ground arith
begin_round-retries (suc k) job round db h =
    let waited =
      act_all-Updates {Target = Any} round.now round.in_wait db (action-Any round.in_wait) in
    let kept = retries-Updates job.id waited in
    let counted = increment-retries _ job.id (has_job-Updates job.id waited ∙ h) in ground arith

module _ (mirror : Option MirrorResolver) (has_cache : Bool) (job : DownloadJob)
    (env : ℕ → Round) where
  process_from-rounds :
      (n k : ℕ) (last : Text) (db : Tables)
      → (process_from mirror has_cache job env n k last db).rounds ≤ k + n
  unfolding process_from
  process_from-rounds zero k last db = omega arith
  process_from-rounds (suc n) k last db =
      let start = begin_round k job (env k) db in
      elim (Bool-cases (is_stopped k (env k))) [
        | inl stopped ↦ rw (stopped, process_from) (omega arith)
        | inr going ↦ elim (Option-cases (attempt mirror job (env k) start).1) [
          | inl e ↦ rw (going, e, process_from) (omega arith)
          | inr (error, e) ↦
              let rest = process_from-rounds n (k + 1) error (attempt mirror job (env k) start).0 in
              rw (going, e, process_from) (omega arith)
        ]
      ]

  process_from-retries :
      (n k : ℕ) (last : Text) (db : Tables)
      → has_job db job.id ≡ true
      → retries db job.id + (process_from mirror has_cache job env n k last db).rounds
        ≤ retries (process_from mirror has_cache job env n k last db).db job.id + uncounted k
  unfolding process_from
  process_from-retries zero k last db h =
      let text = codes "Max retries exceeded: " ++ last in
      let failed =
        retries-Updates job.id (fail_job-Updates {Target = Any} job tt db (env k).now text) in
      let least = uncounted_least k in omega arith
  process_from-retries (suc n) k last db h =
      let start = begin_round k job (env k) db in
      let begin = begin_round-Updates {Target = Any} job tt k (env k) db (round-Any (env k)) in
      let tries = attempt-Updates {Target = Any} job tt mirror (env k) start (round-Any (env k)) in
      let began = begin_round-retries k job (env k) db h in
      let kept = retries-Updates job.id tries in
      elim (Bool-cases (is_stopped k (env k))) [
        | inl stopped ↦
            let waited =
              act_all-Updates {Target = Any} (env k).now (env k).in_wait db
                (action-Any (env k).in_wait) in
            let failed =
              fail_job-Updates {Target = Any} job tt (act_all (env k).now (env k).in_wait db)
                (env k).now (codes "Job cancelled") in
            let first = retries-Updates job.id waited in
            let second = retries-Updates job.id failed in
            let least = uncounted_least k in rw (stopped, process_from) (omega arith)
        | inr going ↦ elim (Option-cases (attempt mirror job (env k) start).1) [
          | inl e ↦ rw (going, e, process_from) (omega arith)
          | inr (error, e) ↦
              let has = has_job-Updates job.id tries ∙ has_job-Updates job.id begin ∙ h in
              let rest =
                process_from-retries n (k + 1) error (attempt mirror job (env k) start).0 has in
              let next = uncounted_next k in rw (going, e, process_from) (omega arith)
        ]
      ]

  -- However the verifier, the network and the handlers answer, `processJob` ends after at most the job's
  -- retries and one round more, and the row counts every round but the first as a retry.
  pub process_job-rounds :
      (db : Tables)
      → has_job db job.id ≡ true
      → ((process_job mirror has_cache job env db).rounds ≤ job.max_retries + 1)
        × (retries db job.id + (process_job mirror has_cache job env db).rounds
            ≤ retries (process_job mirror has_cache job env db).db job.id + 1)
  unfolding process_job uncounted
  process_job-rounds db h =
      let most = process_from-rounds (job.max_retries + 1) 0 (codes "<nil>") db in
      (omega arith, process_from-retries _ 0 _ db h)
