-- ===== src/Build/Manager/Lifecycle.antt =====
-- Submission, dispatch, cancellation and retry of builds (ldfd/build/manager.go).
use ldf.Prelude.{
  ℕ, suc, ◌+◌, ◌-◌, ◌*◌, ◌≤◌, Text, true, false, List, [], ◌∷◌, ◌++◌, none, some, ◌≡◌, ◌≢◌, ◌⊎◌,
  refl, arith, ◌∙◌, ap, length, length-append, take, append_assoc, append-nil, Bool-cases, inl, inr,
  Option-cases, zero,
}
use mathlib.Core.Option
use ldf.Build.Types.{BuildJob, BuildJobStatus, pending, failed, cancelled, Store}
use ldf.Build.Repository.{get_by_id, increment_retry, mark_cancelled, list_pending}
use ldf.Build.Repository.Rows.{
  is_present, exec_update-row, exec_update-ok, is_present_of_row, get-exec_update,
}
use ldf.Build.Manager.{
  Manager, build_not_found, not_retryable, dispatch_jobs, dispatch_pending_jobs, cancel_build,
  retry_build, can_retry,
}

-- The room that the queue has left.
abbrev pub room : Manager → ℕ
room m = m.config.workers * 2 - length m.queue

take-nil : (n : ℕ) → take {A = BuildJob} n [] ≡ []
take-nil zero = refl
take-nil (suc n) = refl

dispatch_jobs-take :
    (n : ℕ) (jobs : List BuildJob) (m : Manager)
    → room m ≡ n
    → (dispatch_jobs jobs m).queue ≡ m.queue ++ take n jobs
unfolding dispatch_jobs
dispatch_jobs-take n [] m e = rw (take-nil n, append-nil)
dispatch_jobs-take zero (job ∷ jobs) m e = ground (arith, append-nil m.queue)
dispatch_jobs-take (suc n) (job ∷ jobs) m e =
    let m' : Manager = record m { queue = m.queue ++ job ∷ [] } in
    let left : room m' ≡ n = omega (arith, length-append m.queue (job ∷ [])) in
    ground (arith, dispatch_jobs-take n jobs m' left, append_assoc m.queue (job ∷ []) (take n jobs))

length-take-le : (n : ℕ) (jobs : List BuildJob) → length (take n jobs) ≤ n
length-take-le zero jobs = omega arith
length-take-le (suc n) [] = omega arith
length-take-le (suc n) (job ∷ jobs) = omega (arith, length-take-le n jobs)

-- A dispatch appends to the queue as many of the pending jobs as it has room for, in their order,
-- whether or not they stand in the queue already; it never holds more than its capacity.
pub dispatch_pending_jobs-queue :
    (m : Manager)
    → length m.queue ≤ m.config.workers * 2
    → ((dispatch_pending_jobs m).queue ≡ m.queue ++ take (room m) (list_pending m.store))
      × (length (dispatch_pending_jobs m).queue ≤ m.config.workers * 2)
unfolding dispatch_pending_jobs
dispatch_pending_jobs-queue m h =
    let e = dispatch_jobs-take (room m) (list_pending m.store) m refl in
    (
      e,
      rw e (
          omega (
            arith,
            length-append m.queue (take (room m) (list_pending m.store)),
            length-take-le (room m) (list_pending m.store),
          )),
    )

-- What a row looks like after a retry.
abbrev pub Reset : BuildJob → BuildJob → Type 0
Reset old new =
    (new.status ≡ pending)
    × (new.retry_count ≡ old.retry_count + 1)
    × (new.progress_percent ≡ 0)
    × (new.current_stage ≡ [])
    × (new.error_message ≡ [])
    × (new.error_stage ≡ [])

retry-missing :
    (db : Store) (id : Text)
    → get_by_id db id ≡ none
    → retry_build db id ≡ (db, some build_not_found)
unfolding retry_build
retry-missing db id e = rw (e, retry_build)

retry-refused :
    (db : Store) (id : Text) (job : BuildJob)
    → get_by_id db id ≡ some job
    → can_retry job.status ≡ false
    → (job.status ≢ failed)
      × (job.status ≢ cancelled)
      × (retry_build db id ≡ (db, some not_retryable))
unfolding retry_build can_retry
retry-refused db id job e c = (ground arith, ground arith, ground arith)

can_retry_cases : (s : BuildJobStatus) → can_retry s ≡ true → (s ≡ failed) ⊎ (s ≡ cancelled)
unfolding can_retry
can_retry_cases s h = ground arith

retry-increments :
    (db : Store) (id : Text) (job : BuildJob)
    → get_by_id db id ≡ some job
    → can_retry job.status ≡ true
    → (increment_retry db id).1 ≡ none
    → retry_build db id ≡ ((increment_retry db id).0, none)
unfolding retry_build
retry-increments db id job e c ok = ground arith

abbrev retried : BuildJob → BuildJob
retried job = record job {
  retry_count = job.retry_count + 1;
  status = pending;
  error_message = [];
  error_stage = [];
  current_stage = [];
  progress_percent = 0;
}

increment_retry-row :
    (db : Store) (id : Text) (job : BuildJob)
    → get_by_id db id ≡ some job
    → get_by_id (increment_retry db id).0 id ≡ some (retried job)
unfolding increment_retry
increment_retry-row db id job e =
    get-exec_update db id retried (λ j. refl) ∙ ap (Option.map retried) e

retry-done :
    (db : Store) (id : Text) (job : BuildJob)
    → get_by_id db id ≡ some job
    → can_retry job.status ≡ true
    → ((job.status ≡ failed) ⊎ (job.status ≡ cancelled))
      × ((retry_build db id).1 ≡ none)
      × ((new : BuildJob) × (get_by_id (retry_build db id).0 id ≡ some new) × Reset job new)
unfolding increment_retry
retry-done db id job e c =
    let there = is_present_of_row db id e in
    let eq = retry-increments db id job e c (exec_update-ok db id _ there) in
    (
      can_retry_cases job.status c,
      rw eq,
      (retried job, rw eq (increment_retry-row db id job e), (refl, refl, refl, refl, refl, refl)),
    )

-- A retry resets the row of a failed or cancelled job, whatever its retry count and its maximum;
-- for any other job, and for a missing one, it fails and changes nothing.
pub retry_build-cases :
    (db : Store) (id : Text)
    → ((get_by_id db id ≡ none) × (retry_build db id ≡ (db, some build_not_found)))
      ⊎ ((job : BuildJob) × (get_by_id db id ≡ some job)
          × (((job.status ≢ failed)
                × (job.status ≢ cancelled)
                × (retry_build db id ≡ (db, some not_retryable)))
              ⊎ (((job.status ≡ failed) ⊎ (job.status ≡ cancelled))
                  × ((retry_build db id).1 ≡ none)
                  × ((new : BuildJob) × (get_by_id (retry_build db id).0 id ≡ some new)
                      × Reset job new))))
retry_build-cases db id = elim (Option-cases (get_by_id db id)) [
  | inl e ↦ inl (e, retry-missing db id e)
  | inr (job, e) ↦ inr (
    job,
    e,
    elim (Bool-cases (can_retry job.status)) [
      | inl c ↦ inr (retry-done db id job e c)
      | inr c ↦ inl (retry-refused db id job e c)
    ],
  )
]

-- Whatever state a build is in, also when it has been completed, a cancellation that finds its row
-- writes it as cancelled.
cancel_build-cancelled :
    (db : Store) (now : ℕ) (id : Text)
    → is_present db id ≡ true
    → (row : BuildJob) × (get_by_id (cancel_build db now id).0 id ≡ some row)
      × (row.status ≡ cancelled)
unfolding cancel_build mark_cancelled
cancel_build-cancelled db now id h =
    let (row, e, w) = exec_update-row db id _ (λ j. refl) h in (_, w, refl)
