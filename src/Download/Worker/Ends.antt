-- ===== src/Download/Worker/Ends.antt =====
-- How `processJob` of ldfd/download/worker.go ends, as a whole.
use ldf.Prelude.{
  ℕ, zero, suc, ◌+◌, ◌≤◌, ◌<◌, Text, codes, Bool, true, false, Option, ◌≡◌, refl, arith, inl, inr,
  subst, sym,
}
use ldf.Download.Jobs.{DownloadJob, Tables}
use ldf.Download.Jobs.Rows.{has_job}
use ldf.Download.Mirror.{MirrorResolver}
use ldf.Download.Downloader.{Artifact}
use ldf.Download.Worker.{Round, is_stopped, process_job}
use ldf.Download.Worker.Verdict.{obtained, round_answer, gets, verdict_from, verdict, Holds, EndsBy}
use ldf.Download.Worker.Sound.{Answer-cases, process_from-EndsBy}

-- A job with a row ends as its verdict says, whatever the handlers write meanwhile: with the first
-- artifact that a round obtains before a wait is stopped or the retries are used up, the row is
-- completed with its path, checksum and size and just that is offered to the cache; otherwise the row
-- is failed with the reason, and nothing is offered to the cache.
pub process_job-EndsBy :
    (mirror : Option MirrorResolver) (has_cache : Bool) (job : DownloadJob) (env : ℕ → Round)
    (db : Tables)
    → has_job db job.id ≡ true
    → EndsBy has_cache job (verdict mirror job env) (process_job mirror has_cache job env db)
unfolding process_job verdict
process_job-EndsBy mirror has_cache job env db h =
    process_from-EndsBy mirror has_cache job env (job.max_retries + 1) 0 (codes "<nil>") db h

is_stopped-never :
    (env : ℕ → Round) → ((i : ℕ) → (env i).stopped ≡ false) → (k : ℕ) → is_stopped k (env k) ≡ false
unfolding is_stopped
is_stopped-never env going zero = refl
is_stopped-never env going (suc k) = going (suc k)

k_zero : (k : ℕ) → k + 0 ≡ k
k_zero k = omega arith

zero_k : (k : ℕ) → 0 + k ≡ k
zero_k k = omega arith

k_suc : (k j : ℕ) → k + suc j ≡ k + 1 + j
k_suc k j = omega arith

-- An artifact that a later round obtains, or one before it, is the verdict.
verdict_from-gets :
    (mirror : Option MirrorResolver) (job : DownloadJob) (env : ℕ → Round)
    → ((i : ℕ) → (env i).stopped ≡ false)
    → (n k j : ℕ) (last : Text) (artifact : Artifact) → j < n
    → round_answer mirror job (env (k + j)) ≡ obtained artifact
    → (first : Artifact) × (verdict_from mirror job env n k last ≡ gets first)
unfolding verdict_from
verdict_from-gets mirror job env going zero k j last artifact less e =
    let no : ⊥ = omega arith in elim no [ ]
verdict_from-gets mirror job env going (suc n) k zero last artifact less e =
    let now : round_answer mirror job (env k) ≡ obtained artifact =
      subst (λ i. round_answer mirror job (env i) ≡ obtained artifact) (k_zero k) e in
    (artifact, rw (is_stopped-never env going k, now, verdict_from) refl)
verdict_from-gets mirror job env going (suc n) k (suc j) last artifact less e =
    elim (Answer-cases (round_answer mirror job (env k))) [
      | inl (first, got) ↦ (first, rw (is_stopped-never env going k, got, verdict_from) refl)
      | inr (error, failed) ↦
          rw (is_stopped-never env going k, failed, verdict_from)
            (verdict_from-gets mirror job env going n (k + 1) j error artifact (omega arith)
              (subst (λ i. round_answer mirror job (env i) ≡ obtained artifact) (k_suc k j) e))
    ]

-- A job with a row is completed with an artifact in its row, whatever else goes wrong, if one of its
-- rounds obtains an artifact and no wait is stopped.
pub process_job-completes :
    (mirror : Option MirrorResolver) (has_cache : Bool) (job : DownloadJob) (env : ℕ → Round)
    (db : Tables) (k : ℕ) (artifact : Artifact)
    → has_job db job.id ≡ true
    → ((i : ℕ) → (env i).stopped ≡ false)
    → k ≤ job.max_retries
    → round_answer mirror job (env k) ≡ obtained artifact
    → (first : Artifact) × Holds job first (process_job mirror has_cache job env db).db
unfolding verdict EndsBy
process_job-completes mirror has_cache job env db k artifact h going within e =
    let (first, v) =
      verdict_from-gets mirror job env going (job.max_retries + 1) 0 k (codes "<nil>") artifact
        (omega arith)
        (subst (λ i. round_answer mirror job (env i) ≡ obtained artifact) (sym (zero_k k)) e) in
    (
      first,
      (subst (λ v. EndsBy has_cache job v (process_job mirror has_cache job env db)) v
          (process_job-EndsBy mirror has_cache job env db h)).0,
    )
