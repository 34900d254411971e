-- ===== src/Download/Worker/Sound.antt =====
-- That `processJob` of ldfd/download/worker.go ends as the answers of its rounds say.
use ldf.Prelude.{
  ℕ, zero, suc, ◌+◌, Text, [], Bool, true, false, Option, none, some, ◌≡◌, refl, ◌∙◌, inl, inr,
  Bool-cases, Option-cases, is_nil, Text, ◌⊎◌,
}
use ldf.Download.Jobs.{
  DownloadJob, job_completed, job_failed, Tables, get_job, mark_job_started, mark_job_completed,
  mark_job_failed, mark_verifying,
}
use ldf.Download.Jobs.Rows.{has_job, row-update_job, update_job-ok}
use ldf.Download.Mirror.{MirrorResolver}
use ldf.Download.Downloader.{
  Artifact, Transfer, build_artifact_path, complete_download, finish_transfer, run_transfer,
}
use ldf.Download.Worker.{
  Round, Finish, verify, attempt, begin_round, is_stopped, mirrored_url, mirrored_path,
  verified_method, fail_job, store_request, process_from, Ending, succeeded,
}
use ldf.Download.Worker.Rounds.{
  Updates, has_job-Updates, act_all-Updates, write_progress-Updates, mark_job_started-Updates,
}
use ldf.Download.Worker.Loop.{
  verify-Updates, Any, action-Any, round-Any, attempt-Updates, begin_round-Updates,
}
use ldf.Download.Worker.Verdict.{
  Answer, obtained, refused, transfer_answer, round_answer, gets, loses, verdict_from, Holds,
  EndsBy,
}

-- What a method returned and wrote, for the answer that it got.
abbrev Answered : DownloadJob → Answer → Tables × Option Text → Type 0
Answered job (obtained artifact) out = (out.1 ≡ none) × Holds job artifact out.0
Answered job (refused error) out = out.1 ≡ some error

complete_download-Answered :
    (db : Tables) (now : ℕ) (job : DownloadJob) (artifact : Artifact)
    → has_job db job.id ≡ true
    → Answered job (obtained artifact) (complete_download db now job artifact)
unfolding complete_download mark_job_completed
complete_download-Answered db now job artifact h =
    let f : DownloadJob → DownloadJob = λ row. record row {
      status = job_completed;
      completed_at = some now;
      artifact_path = build_artifact_path job;
      checksum = artifact.checksum;
      total_bytes = artifact.size;
      error_message = [];
    } in
    let (row, e, e') = row-update_job db job.id f (λ j. refl) h in
    let fine = update_job-ok db job.id f h in
    rw (fine, complete_download, mark_job_completed)
      (refl, (f row, e', refl, refl, refl, refl, refl))

finish_transfer-Answered :
    (db : Tables) (now : ℕ) (job : DownloadJob) (transfer : Transfer)
    → has_job db job.id ≡ true
    → Answered job (transfer_answer transfer) (finish_transfer db now job transfer)
unfolding finish_transfer transfer_answer
finish_transfer-Answered db now job transfer h =
    let has =
      has_job-Updates job.id (write_progress-Updates {Target = Any} db job.id transfer.progress tt)
      ∙ h in
    elim (Option-cases transfer.outcome) [
      | inl e ↦ rw (e, finish_transfer, transfer_answer) refl
      | inr (artifact, e) ↦
          rw (e, finish_transfer, transfer_answer)
            (complete_download-Answered _ now job artifact has)
    ]

mark_job_started-ok :
    (db : Tables) (now : ℕ) (id : Text)
    → has_job db id ≡ true
    → (mark_job_started db now id).1 ≡ none
unfolding mark_job_started
mark_job_started-ok db now id h = update_job-ok db id _ h

mark_verifying-ok :
    (db : Tables) (id : Text) → has_job db id ≡ true → (mark_verifying db id).1 ≡ none
unfolding mark_verifying
mark_verifying-ok db id h = update_job-ok db id _ h

run_transfer-Answered :
    (db : Tables) (now : ℕ) (job : DownloadJob) (meanwhile : Tables → Tables) (transfer : Transfer)
    → ((db' : Tables) → Updates Any db' (meanwhile db'))
    → has_job db job.id ≡ true
    → Answered job (transfer_answer transfer) (run_transfer db now job meanwhile transfer)
unfolding run_transfer transfer_answer
run_transfer-Answered db now job meanwhile transfer m h =
    let started =
      has_job-Updates job.id (mark_job_started-Updates {Target = Any} db now job.id tt) ∙ h in
    let has = has_job-Updates job.id (m (mark_job_started db now job.id).0) ∙ started in
    rw (mark_job_started-ok db now job.id h, run_transfer)
      (finish_transfer-Answered _ now job transfer has)

verify-ok :
    (job : DownloadJob) (round : Round) (db : Tables)
    → has_job db job.id ≡ true
    → (verify job round db).1
      ≡ round.verification job.resolved_url (verified_method job) job.version
unfolding verify
verify-ok job round db h = rw (mark_verifying-ok db job.id h, verify) refl

attempt-Answered :
    (mirror : Option MirrorResolver) (job : DownloadJob) (round : Round) (db : Tables)
    → has_job db job.id ≡ true
    → Answered job (round_answer mirror job round) (attempt mirror job round db)
unfolding attempt round_answer
attempt-Answered mirror job round db h =
    let url = mirrored_url mirror job.resolved_url in
    let path = mirrored_path mirror round.file_exists url job in
    let meanwhile = λ (db' : Tables).
      act_all-Updates {Target = Any} round.now round.in_transfer db'
        (action-Any round.in_transfer) in
    let verified = verify-Updates {Target = Any} job tt round db (round-Any round) in
    let has = has_job-Updates job.id verified ∙ h in
    let asked = verify-ok job round db h in
    elim (Bool-cases (is_nil path)) [
      | inr local ↦
          rw (local, attempt, round_answer)
            (run_transfer-Answered db round.now job _ (round.copy_from path) meanwhile h)
      | inl fetched ↦
          elim (Option-cases
            (round.verification job.resolved_url (verified_method job) job.version)) [
              | inr (error, e) ↦ rw (fetched, attempt, round_answer, asked ∙ e, e) refl
              | inl e ↦
                  rw (fetched, attempt, round_answer, asked ∙ e, e)
                    (run_transfer-Answered _ round.now job _ (round.fetch_from url) meanwhile has)
            ]
    ]

pub Answer-cases :
    (answer : Answer)
    → ((artifact : Artifact) × (answer ≡ obtained artifact))
      ⊎ ((error : Text) × (answer ≡ refused error))
Answer-cases (obtained artifact) = inl (artifact, refl)
Answer-cases (refused error) = inr (error, refl)

fail_job-EndsBy :
    (has_cache : Bool) (db : Tables) (now : ℕ) (job : DownloadJob) (message : Text)
    (finish : Finish)
    → has_job db job.id ≡ true
    → finish.db ≡ fail_job db now job message
    → finish.stored ≡ none
    → EndsBy has_cache job (loses message) finish
unfolding EndsBy fail_job mark_job_failed
fail_job-EndsBy has_cache db now job message finish h e none_stored =
    let f : DownloadJob → DownloadJob =
      λ row. record row { status = job_failed; completed_at = some now; error_message = message } in
    let (row, found, found') = row-update_job db job.id f (λ j. refl) h in
    (none_stored, (f row, rw e found', refl, refl))

store_request-Holds :
    (has_cache : Bool) (job : DownloadJob) (artifact : Artifact) (db : Tables) (ending : Ending)
    (rounds : ℕ)
    → Holds job artifact db
    → EndsBy has_cache job (gets artifact) record {
      db = db;
      ending = ending;
      rounds = rounds;
      stored = store_request has_cache job (get_job db job.id);
    }
unfolding EndsBy store_request build_artifact_path
store_request-Holds false job artifact db ending rounds holds = (holds, refl)
store_request-Holds true job artifact db ending rounds holds =
    let (row, e, done, path, checksum, size, message) = holds in
    (holds, rw (e, store_request, path, checksum, size) refl)

pub process_from-EndsBy :
    (mirror : Option MirrorResolver) (has_cache : Bool) (job : DownloadJob) (env : ℕ → Round)
    (n k : ℕ) (last : Text) (db : Tables)
    → has_job db job.id ≡ true
    → EndsBy has_cache job
        (verdict_from mirror job env n k last)
        (process_from mirror has_cache job env n k last db)
unfolding process_from verdict_from
process_from-EndsBy mirror has_cache job env zero k last db h =
    fail_job-EndsBy has_cache db (env k).now job _ _ h refl refl
process_from-EndsBy mirror has_cache job env (suc n) k last db h =
    let start = begin_round k job (env k) db in
    let began = begin_round-Updates {Target = Any} job tt k (env k) db (round-Any (env k)) in
    let tried =
      has_job-Updates job.id
        (attempt-Updates {Target = Any} job tt mirror (env k) start (round-Any (env k))) in
    let has = has_job-Updates job.id began ∙ h in
    let answered = attempt-Answered mirror job (env k) start has in
    let waited =
      act_all-Updates {Target = Any} (env k).now (env k).in_wait db (action-Any (env k).in_wait) in
    elim (Bool-cases (is_stopped k (env k))) [
      | inl stopped ↦
          rw (stopped, process_from, verdict_from)
            (fail_job-EndsBy has_cache _ (env k).now job _ _ (has_job-Updates job.id waited ∙ h)
              refl refl)
      | inr going ↦ elim (Answer-cases (round_answer mirror job (env k))) [
        | inl (artifact, e) ↦
            let (fine, holds) : Answered job (obtained artifact)
                (attempt mirror job (env k) start) =
              rw e at answered in
            rw (going, e, fine, process_from, verdict_from)
              (store_request-Holds has_cache job artifact _ succeeded (k + 1) holds)
        | inr (error, e) ↦
            let failed : (attempt mirror job (env k) start).1 ≡ some error = rw e at answered in
            rw (going, e, failed, process_from, verdict_from)
              (process_from-EndsBy mirror has_cache job env n (k + 1) error _ (tried ∙ has))
      ]
    ]
