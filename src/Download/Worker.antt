-- ===== src/Download/Worker.antt =====
-- `Worker` of ldfd/download/worker.go: `processJob` with its retries. What a round meets is an argument,
-- the handlers' calls while it runs included; whether the job's context is done when a wait is over is
-- one of the answers, since a cancelled context and the end of the wait may both be ready. That a row is
-- deleted meanwhile is not modelled.
pub mod Rounds
pub mod Loop
pub mod Verdict
pub mod Sound
pub mod Ends
pub mod Isolation
pub mod Bound
use ldf.Prelude.{
  ℕ, zero, suc, ◌+◌, Text, codes, text_eq, Bool, true, false, ◌&&◌, if◌then◌else◌, List, [], ◌∷◌,
  ◌++◌, Option, none, some, is_nil, ltb,
}
use ldf.Download.Mirror.{MirrorResolver, resolve_url, resolve_local_path}
use ldf.Download.Jobs.{
  DownloadJob, Tables, TableError, get_job, mark_verifying, mark_job_failed, increment_job_retry,
}
use ldf.Download.Downloader.{Transfer, Artifact, table_error_text, run_transfer}
use ldf.Download.Control.{Action, act_all}

-- One round of the loop: what the handlers call in its wait, before the row is marked as verified and
-- during the transfer; and what the verifier (an error, for a URL, a method and a version), the file
-- system and the transfer (from a path or a URL) answer.
pub record Round : Type 0 where
  pub now : ℕ
  pub stopped : Bool
  pub in_wait : List Action
  pub in_verification : List Action
  pub in_transfer : List Action
  pub file_exists : Text → Bool
  pub verification : Text → Text → Text → Option Text
  pub copy_from : Text → Transfer
  pub fetch_from : Text → Transfer

-- How `processJob` ends.
pub data Ending : Type 0 where
  succeeded exhausted stopped_waiting : Ending

-- What `Cache.Store` is called with.
pub record StoreRequest : Type 0 where
  pub source_id : Text
  pub version : Text
  pub artifact_path : Text
  pub checksum : Text
  pub total_bytes : ℕ

pub record Finish : Type 0 where
  pub db : Tables
  pub ending : Ending
  pub rounds : ℕ
  pub stored : Option StoreRequest

unfoldable pub mirrored_url : Option MirrorResolver → Text → Text
unfolding resolve_url
mirrored_url none url = url
mirrored_url (some r) url = resolve_url r url

-- The path in the local mirror, or the empty text.
unfoldable pub mirrored_path : Option MirrorResolver → (Text → Bool) → Text → DownloadJob → Text
unfolding resolve_local_path
mirrored_path none exists url job = []
mirrored_path (some r) exists url job = resolve_local_path r exists url job.source_id job.version

-- The method that `verify` asks for.
unfoldable pub verified_method : DownloadJob → Text
unfolding text_eq
verified_method job = if text_eq job.source_type (codes "git") then codes "git" else codes "release"

unfoldable pub verify : DownloadJob → Round → Tables → Tables × Option Text
unfolding mark_verifying act_all table_error_text verified_method
verify job round db =
    let (db', error) = mark_verifying db job.id in
    elim error [
      | some e ↦ (db', some (codes "failed to update status: " ++ table_error_text e))
      | none ↦ (
        act_all round.now round.in_verification db',
        round.verification job.resolved_url (verified_method job) job.version,
      )
    ]

-- The body of the loop behind the wait: what is written, and the error of the round.
unfoldable pub attempt : Option MirrorResolver → DownloadJob → Round → Tables → Tables × Option Text
unfolding mirrored_url mirrored_path verify run_transfer act_all
attempt mirror job round db =
    let url = mirrored_url mirror job.resolved_url in
    let path = mirrored_path mirror round.file_exists url job in
    let (verified, error) = verify job round db in
    let meanwhile = act_all round.now round.in_transfer in
    if is_nil path
    then elim error [
      | some e ↦ (verified, some e)
      | none ↦ run_transfer verified round.now job meanwhile (round.fetch_from url)
    ]
    else run_transfer db round.now job meanwhile (round.copy_from path)

-- `handleFailure`
unfoldable pub fail_job : Tables → ℕ → DownloadJob → Text → Tables
unfolding mark_job_failed
fail_job db now job message = (mark_job_failed db now job.id message).0

-- The block at `success`, for a manager with or without a cache.
unfoldable pub store_request : Bool → DownloadJob → Option DownloadJob → Option StoreRequest
store_request false job row = none
store_request true job none = none
store_request true job (some row) =
    if is_nil row.artifact_path
    then none
    else some record {
      source_id = job.source_id;
      version = job.version;
      artifact_path = row.artifact_path;
      checksum = row.checksum;
      total_bytes = row.total_bytes;
    }

-- The wait, and the row's reset, before a round that is not the first.
unfoldable pub begin_round : ℕ → DownloadJob → Round → Tables → Tables
unfolding act_all increment_job_retry
begin_round zero job round db = db
begin_round (suc k) job round db =
    (increment_job_retry (act_all round.now round.in_wait db) job.id).0

unfoldable pub is_stopped : ℕ → Round → Bool
is_stopped zero round = false
is_stopped (suc k) round = round.stopped

module _ (mirror : Option MirrorResolver) (has_cache : Bool) (job : DownloadJob)
    (env : ℕ → Round) where
  -- The loop from a round on, with the rounds that are left and the last error.
  unfoldable pub process_from : ℕ → ℕ → Text → Tables → Finish
  unfolding attempt fail_job store_request begin_round is_stopped get_job act_all
  process_from zero k last db = record {
    db = fail_job db (env k).now job (codes "Max retries exceeded: " ++ last);
    ending = exhausted;
    rounds = k;
    stored = none;
  }
  process_from (suc n) k last db =
      let (db', error) = attempt mirror job (env k) (begin_round k job (env k) db) in
      elim (is_stopped k (env k)) [
        | true ↦ record {
          db =
              fail_job (act_all (env k).now (env k).in_wait db) (env k).now job
                (codes "Job cancelled");
          ending = stopped_waiting;
          rounds = k;
          stored = none;
        }
        | false ↦ elim error [
          | some e ↦ process_from n (k + 1) e db'
          | none ↦ record {
            db = db';
            ending = succeeded;
            rounds = k + 1;
            stored = store_request has_cache job (get_job db' job.id);
          }
        ]
      ]

  -- `processJob`
  unfoldable pub process_job : Tables → Finish
  unfolding process_from
  process_job db = process_from (job.max_retries + 1) 0 (codes "<nil>") db
