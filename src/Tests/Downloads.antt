-- ===== src/Tests/Downloads.antt =====
-- A download of ldfd/download/worker.go with one retry: the first round is refused by the verifier, the
-- second one loads the artifact.
use ldf.Prelude.{
  ℕ, ◌+◌, ◌≤◌, Text, codes, text_eq, true, false, [], ◌∷◌, none, some, ◌≡◌, refl, arith, ◌==◌,
  if◌then◌else◌,
}
use ldf.Download.Jobs.{DownloadJob, job_pending, Tables, get_job}
use ldf.Download.Jobs.Rows.{has_job}
use ldf.Download.Downloader.{Artifact, Transfer}
use ldf.Download.Control.{add_component}
use ldf.Download.Worker.{Round, mirrored_path, process_job}
use ldf.Download.Worker.Verdict.{round_answer, verdict, Holds, EndsBy}
use ldf.Download.Worker.Rounds.{target_of}
use ldf.Download.Worker.Bound.{retries, process_job-rounds}
use ldf.Download.Worker.Isolation.{process_job-other_row}
use ldf.Download.Worker.Ends.{process_job-EndsBy, process_job-completes}

abbrev pub job_of : Text → DownloadJob
job_of id = record {
  id = id;
  distribution_id = codes "d";
  owner_id = codes "o";
  component_id = codes "c";
  component_ids = codes "c" ∷ [];
  source_id = codes "s";
  source_name = codes "linux";
  source_type = codes "default";
  retrieval_method = codes "release";
  resolved_url = codes "https://h/linux-6.1.tar.xz";
  version = codes "6.1";
  status = job_pending;
  progress_bytes = 0;
  total_bytes = 0;
  created_at = 1;
  started_at = none;
  completed_at = none;
  artifact_path = [];
  checksum = [];
  error_message = [];
  retry_count = 0;
  max_retries = 1;
  priority = 10;
  cache_hit = false;
}

abbrev two_jobs : Tables
two_jobs = record {
  jobs = job_of (codes "a") ∷ job_of (codes "b") ∷ [];
  distribution_ids = codes "d" ∷ [];
  component_ids = codes "c" ∷ [];
}

abbrev linux : Artifact
linux = record { checksum = codes "1f"; size = 7 }

abbrev loads : Transfer
loads = record { progress = (4, 7) ∷ []; outcome = some linux; failure = [] }

abbrev refused_then_loaded : ℕ → Round
refused_then_loaded k = record {
  now = 10 + k;
  stopped = false;
  in_wait = [];
  in_verification = [];
  in_transfer = add_component (codes "a") (codes "headers") ∷ [];
  file_exists = λ path. false;
  verification = λ url method version. if k == 0 then some (codes "no route") else none;
  copy_from = λ path. loads;
  fetch_from = λ url. loads;
}

abbrev first_job : DownloadJob
first_job = job_of (codes "a")

first_job-has_job : has_job two_jobs first_job.id ≡ true
unfolding has_job
first_job-has_job = refl

process_job-EndsBy_example :
    EndsBy true first_job
      (verdict none first_job refused_then_loaded)
      (process_job none true first_job refused_then_loaded two_jobs)
process_job-EndsBy_example =
    process_job-EndsBy none true first_job refused_then_loaded two_jobs first_job-has_job

process_job-completes_example :
    (first : Artifact) × Holds first_job first
      (process_job none true first_job refused_then_loaded two_jobs).db
unfolding round_answer mirrored_path
process_job-completes_example =
    process_job-completes none true first_job refused_then_loaded two_jobs 1 linux first_job-has_job
      (λ i. refl) (omega arith) refl

process_job-rounds_example :
    ((process_job none true first_job refused_then_loaded two_jobs).rounds
      ≤ first_job.max_retries + 1)
    × (retries two_jobs first_job.id
          + (process_job none true first_job refused_then_loaded two_jobs).rounds
        ≤ retries (process_job none true first_job refused_then_loaded two_jobs).db first_job.id
          + 1)
process_job-rounds_example =
    process_job-rounds none true first_job refused_then_loaded two_jobs first_job-has_job

process_job-other_row_example :
    get_job (process_job none true first_job refused_then_loaded two_jobs).db (codes "b")
    ≡ get_job two_jobs (codes "b")
unfolding text_eq target_of
process_job-other_row_example =
    process_job-other_row none true first_job refused_then_loaded two_jobs (codes "b") refl
      (λ k. (tt, tt, (refl, tt)))

second_round_loads : (process_job none true first_job refused_then_loaded two_jobs).rounds ≡ 2
unfolding process_job
second_round_loads = refl
