-- ===== src/Download/Worker/Verdict.antt =====
-- What `processJob` of ldfd/download/worker.go is meant to do: the first round that gets the artifact
-- decides, as told by the answers that the rounds get.
use ldf.Prelude.{
  ℕ, zero, suc, ◌+◌, Text, codes, [], Bool, true, false, if◌then◌else◌, Option, none, some, ◌≡◌,
  ◌++◌, is_nil, Text,
}
use ldf.Download.Jobs.{DownloadJob, job_completed, job_failed, Tables, get_job}
use ldf.Download.Mirror.{MirrorResolver}
use ldf.Download.Downloader.{Artifact, Transfer, build_artifact_path}
use ldf.Download.Worker.{Round, Finish, is_stopped, mirrored_url, mirrored_path, verified_method}

-- What a round's answers come to: an artifact or an error.
pub data Answer : Type 0 where
  obtained : Artifact → Answer
  refused : Text → Answer

unfoldable pub transfer_answer : Transfer → Answer
transfer_answer transfer = elim transfer.outcome [
  | some artifact ↦ obtained artifact
  | none ↦ refused transfer.failure
]

-- A copy from the local mirror is not verified; a URL is verified before the transfer, and by its
-- original form.
unfoldable pub round_answer : Option MirrorResolver → DownloadJob → Round → Answer
unfolding transfer_answer
round_answer mirror job round =
    let url = mirrored_url mirror job.resolved_url in
    let path = mirrored_path mirror round.file_exists url job in
    if is_nil path
    then elim (round.verification job.resolved_url (verified_method job) job.version) [
      | some error ↦ refused error
      | none ↦ transfer_answer (round.fetch_from url)
    ]
    else transfer_answer (round.copy_from path)

pub data Verdict : Type 0 where
  gets : Artifact → Verdict
  loses : Text → Verdict

module _ (mirror : Option MirrorResolver) (job : DownloadJob) (env : ℕ → Round) where
  -- The verdict from a round on, with the rounds that are left and the last error.
  unfoldable pub verdict_from : ℕ → ℕ → Text → Verdict
  unfolding round_answer
  verdict_from zero k last = loses (codes "Max retries exceeded: " ++ last)
  verdict_from (suc n) k last = elim (is_stopped k (env k)) [
    | true ↦ loses (codes "Job cancelled")
    | false ↦ elim (round_answer mirror job (env k)) [
      | obtained artifact ↦ gets artifact
      | refused error ↦ verdict_from n (k + 1) error
    ]
  ]

  unfoldable pub verdict : Verdict
  unfolding verdict_from
  verdict = verdict_from (job.max_retries + 1) 0 (codes "<nil>")

-- The row of a job whose artifact is stored.
abbrev pub Holds : DownloadJob → Artifact → Tables → Type 0
Holds job artifact db =
    (row : DownloadJob) × (get_job db job.id ≡ some row)
    × (row.status ≡ job_completed)
    × (row.artifact_path ≡ build_artifact_path job)
    × (row.checksum ≡ artifact.checksum)
    × (row.total_bytes ≡ artifact.size)
    × (row.error_message ≡ [])

-- How a run must have ended: with the artifact in the job's row and offered to the cache, or with the
-- error in the row and nothing in the cache.
unfoldable pub EndsBy : Bool → DownloadJob → Verdict → Finish → Type 0
EndsBy has_cache job (gets artifact) finish =
    Holds job artifact finish.db
    × (finish.stored ≡ (
        if has_cache
        then some record {
          source_id = job.source_id;
          version = job.version;
          artifact_path = build_artifact_path job;
          checksum = artifact.checksum;
          total_bytes = artifact.size;
        }
        else none))
EndsBy has_cache job (loses message) finish =
    (finish.stored ≡ none)
    × ((row : DownloadJob) × (get_job finish.db job.id ≡ some row)
        × (row.status ≡ job_failed)
        × (row.error_message ≡ message))
