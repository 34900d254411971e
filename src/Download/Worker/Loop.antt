-- ===== src/Download/Worker/Loop.antt =====
-- What the loop of `processJob` of ldfd/download/worker.go does to the table: updates of its own job's row
-- and of those that the handlers change in the meantime.
use ldf.Prelude.{
  ℕ, zero, suc, ◌+◌, Text, codes, List, [], ◌∷◌, Bool, List, [], ◌∷◌, Option, refl, arith, inl, inr,
  Bool-cases, Option-cases, is_nil,
}
use ldf.Download.Jobs.{DownloadJob, Tables, mark_verifying, mark_job_failed, increment_job_retry}
use ldf.Download.Mirror.{MirrorResolver}
use ldf.Download.Control.{Action}
use ldf.Download.Worker.{
  Round, verify, attempt, fail_job, begin_round, mirrored_url, mirrored_path, is_stopped,
  process_from,
}
use ldf.Download.Worker.Rounds.{
  Updates, unchanged, Updates-append, Updates-one, AllTargets, act_all-Updates,
  run_transfer-Updates, mark_verifying-Updates,
}

-- In a round, the handlers only touch rows that may be changed.
abbrev pub InTarget : (Text → Type 0) → Round → Type 0
InTarget Target round =
    AllTargets Target round.in_wait
    × AllTargets Target round.in_verification
    × AllTargets Target round.in_transfer

-- Any row may be changed.
abbrev pub Any : Text → Type 0
Any id = Unit

pub action-Any : (actions : List Action) → AllTargets (Any) actions
action-Any [] = tt
action-Any (action ∷ actions) = (tt, action-Any actions)

pub round-Any : (round : Round) → InTarget (Any) round
round-Any round =
    (action-Any round.in_wait, action-Any round.in_verification, action-Any round.in_transfer)

module _ {Target : Text → Type 0} (job : DownloadJob) (own : Target job.id) where
  pub verify-Updates :
      (round : Round) (db : Tables)
      → InTarget Target round
      → Updates Target db (verify job round db).0
  unfolding verify
  verify-Updates round db t =
      let marked = mark_verifying-Updates db job.id own in
      elim (Option-cases (mark_verifying db job.id).1) [
        | inl e ↦
            rw (e, verify)
              (Updates-append marked (act_all-Updates round.now round.in_verification _ t.1))
        | inr (error, e) ↦ rw (e, verify) marked
      ]

  pub attempt-Updates :
      (mirror : Option MirrorResolver) (round : Round) (db : Tables)
      → InTarget Target round
      → Updates Target db (attempt mirror job round db).0
  unfolding attempt
  attempt-Updates mirror round db t =
      let url = mirrored_url mirror job.resolved_url in
      let path = mirrored_path mirror round.file_exists url job in
      let meanwhile = λ (db' : Tables). act_all-Updates round.now round.in_transfer db' t.2 in
      let verified = verify-Updates round db t in
      elim (Bool-cases (is_nil path)) [
        | inl fetched ↦ elim (Option-cases (verify job round db).1) [
          | inl e ↦
              rw (fetched, e, attempt)
                (Updates-append verified
                  (run_transfer-Updates _ round.now job _ (round.fetch_from url) meanwhile own))
          | inr (error, e) ↦ rw (fetched, e, attempt) verified
        ]
        | inr local ↦
            rw (local, attempt)
              (run_transfer-Updates db round.now job _ (round.copy_from path) meanwhile own)
      ]

  pub begin_round-Updates :
      (k : ℕ) (round : Round) (db : Tables)
      → InTarget Target round
      → Updates Target db (begin_round k job round db)
  unfolding begin_round increment_job_retry
  begin_round-Updates zero round db t = unchanged
  begin_round-Updates (suc k) round db t =
      Updates-append (act_all-Updates round.now round.in_wait db t.0)
        (Updates-one _ job.id _ own (λ row. refl, λ row. omega arith))

  pub fail_job-Updates :
      (db : Tables) (now : ℕ) (message : Text) → Updates Target db (fail_job db now job message)
  unfolding fail_job mark_job_failed
  fail_job-Updates db now message = Updates-one db job.id _ own (λ row. refl, λ row. omega arith)

  pub process_from-Updates :
      (mirror : Option MirrorResolver) (has_cache : Bool) (env : ℕ → Round)
      → ((k : ℕ) → InTarget Target (env k))
      → (n k : ℕ) (last : Text) (db : Tables)
      → Updates Target db (process_from mirror has_cache job env n k last db).db
  unfolding process_from
  process_from-Updates mirror has_cache env t zero k last db = fail_job-Updates db (env k).now _
  process_from-Updates mirror has_cache env t (suc n) k last db =
      let start = begin_round k job (env k) db in
      let tried =
        Updates-append (begin_round-Updates k (env k) db (t k))
          (attempt-Updates mirror (env k) start (t k)) in
      elim (Bool-cases (is_stopped k (env k))) [
        | inl stopped ↦
            rw (stopped, process_from)
              (Updates-append (act_all-Updates (env k).now (env k).in_wait db (t k).0)
                (fail_job-Updates _ (env k).now (codes "Job cancelled")))
        | inr going ↦ elim (Option-cases (attempt mirror job (env k) start).1) [
          | inl e ↦ rw (going, e, process_from) tried
          | inr (error, e) ↦
              rw (going, e, process_from)
                (Updates-append tried
                  (process_from-Updates mirror has_cache env t n (k + 1) error _))
        ]
      ]
