-- ===== src/Build/Manager/Submit.antt =====
-- `SubmitBuild` of ldfd/build/manager.go: the row, the queue, and the next dispatch.
use ldf.Prelude.{
  ℕ, zero, suc, ◌+◌, ◌*◌, ◌≤◌, Text, Bool, false, ltb, if◌then◌else◌, List, [], ◌∷◌, ◌++◌, none,
  some, ◌≡◌, ◌≢◌, ◌⊎◌, refl, ap, arith, ◌∙◌, length, length-append, take, append_assoc, any, keep,
  Option-cases, inl, inr,
}
use ldf.Build.Types.{BuildJob, pending, Store}
use ldf.Build.Repository.{has_id, create, list_pending}
use ldf.Build.Manager.{
  Manager, Submission, submitted_job, try_enqueue, submit_build, dispatch_pending_jobs,
}
use ldf.Build.Manager.Lifecycle.{room, dispatch_pending_jobs-queue}

keep-append {ℓ} :
    {A : Type ℓ} (t : A → Bool) (xs ys : List A) → keep t (xs ++ ys) ≡ keep t xs ++ keep t ys
keep-append t [] ys = refl
keep-append t (x ∷ xs) ys = ground (arith, keep-append t xs ys)

list_pending-append :
    (db db' : Store) (job : BuildJob)
    → job.status ≡ pending
    → db'.jobs ≡ db.jobs ++ job ∷ []
    → list_pending db' ≡ list_pending db ++ job ∷ []
unfolding list_pending
list_pending-append db db' job p e = rw (e, keep-append _ db.jobs (job ∷ []), p)

-- What a submission leaves behind that succeeds.
pub record Submitted (m m' : Manager) (fresh_id : Text) (job : BuildJob) : Type 0 where
  pub new_id : job.id ≡ fresh_id
  pub was_free : any (has_id fresh_id) m.store.jobs ≡ false
  pub is_pending : job.status ≡ pending
  pub row : m'.store.jobs ≡ m.store.jobs ++ job ∷ []
  pub others : (m'.store.stages ≡ m.store.stages) × (m'.store.logs ≡ m.store.logs)
  pub queued :
      m'.queue
      ≡ (if ltb (length m.queue) (m.config.workers * 2) then m.queue ++ job ∷ [] else m.queue)
  pub same_config : m'.config ≡ m.config

take_one : (n : ℕ) (job : BuildJob) → 1 ≤ n → take n (job ∷ []) ≡ job ∷ []
take_one zero job h = ground arith
take_one (suc zero) job h = refl
take_one (suc (suc n)) job h = refl

record Created (db db' : Store) (fresh_id : Text) (job : BuildJob) : Type 0 where
  new_id : job.id ≡ fresh_id
  was_free : any (has_id fresh_id) db.jobs ≡ false
  is_pending : job.status ≡ pending
  row : db'.jobs ≡ db.jobs ++ job ∷ []
  others : (db'.stages ≡ db.stages) × (db'.logs ≡ db.logs)

create-cases :
    (db : Store) (fresh_id : Text) (now : ℕ) (m : Manager) (sub : Submission) (json : Text)
    → let r = create db fresh_id now (submitted_job m sub json) in
      (r.2 ≢ none) ⊎ ((r.2 ≡ none) × Created db r.0 fresh_id r.1)
unfolding create submitted_job
create-cases db fresh_id now m sub json = ground arith

enqueue-queue :
    (m : Manager) (job : BuildJob)
    → ((try_enqueue m job).queue
        ≡ (if ltb (length m.queue) (m.config.workers * 2) then m.queue ++ job ∷ [] else m.queue))
      × ((try_enqueue m job).store ≡ m.store)
      × ((try_enqueue m job).config ≡ m.config)
unfolding try_enqueue
enqueue-queue m job = ground arith

submit_build-created :
    (m : Manager) (fresh_id : Text) (now : ℕ) (sub : Submission) (json : Text)
    → sub.config_json ≡ some json
    → let r = create m.store fresh_id now (submitted_job m sub json) in
      ((r.2 ≢ none)
        → ((submit_build m fresh_id now sub).1 ≢ none) × ((submit_build m fresh_id now sub).0 ≡ m))
      × ((r.2 ≡ none)
          → submit_build m fresh_id now sub ≡ (try_enqueue (record m { store = r.0 }) r.1, none))
unfolding submit_build
submit_build-created m fresh_id now sub json e = ground arith

enqueued-Submitted :
    (m : Manager) (db : Store) (fresh_id : Text) (job : BuildJob)
    → Created m.store db fresh_id job
    → Submitted m (try_enqueue (record m { store = db }) job) fresh_id job
enqueued-Submitted m db fresh_id job c =
    let (queue, store, config) = enqueue-queue (record m { store = db }) job in
    record {
      new_id = c.new_id;
      was_free = c.was_free;
      is_pending = c.is_pending;
      row = rw store c.row;
      others = rw store c.others;
      queued = queue;
      same_config = config;
    }

-- A submission that fails changes neither the tables nor the queue. One that succeeds appends a
-- pending row under the fresh id, which no row had, changes no stage and no log line, and appends the
-- job to the queue where that has room.
pub submit_build-cases :
    (m : Manager) (fresh_id : Text) (now : ℕ) (sub : Submission)
    → (((submit_build m fresh_id now sub).1 ≢ none) × ((submit_build m fresh_id now sub).0 ≡ m))
      ⊎ (((submit_build m fresh_id now sub).1 ≡ none)
          × ((job : BuildJob) × Submitted m (submit_build m fresh_id now sub).0 fresh_id job))
unfolding submit_build
submit_build-cases m fresh_id now sub = elim (Option-cases sub.config_json) [
  | inl e ↦ inl (rw (e, submit_build) (ground arith))
  | inr (json, e) ↦
      let r = create m.store fresh_id now (submitted_job m sub json) in
      let (fails, succeeds) = submit_build-created m fresh_id now sub json e in
      elim (create-cases m.store fresh_id now m sub json) [
        | inl refused ↦ inl (fails refused)
        | inr (ok, c) ↦
            inr (rw (succeeds ok) (refl, (r.1, enqueued-Submitted m r.0 fresh_id r.1 c)))
      ]
]

-- Where no build is pending before a submission that succeeds, and the queue has room for two more,
-- the next dispatch leaves the submitted job in the queue twice.
pub submit-dispatch_twice :
    (m : Manager) (fresh_id : Text) (now : ℕ) (sub : Submission)
    → (submit_build m fresh_id now sub).1 ≡ none
    → list_pending m.store ≡ []
    → length m.queue + 2 ≤ m.config.workers * 2
    → (job : BuildJob) × (job.id ≡ fresh_id)
      × ((dispatch_pending_jobs (submit_build m fresh_id now sub).0).queue
          ≡ m.queue ++ job ∷ job ∷ [])
submit-dispatch_twice m fresh_id now sub ok none_pending h =
    elim (submit_build-cases m fresh_id now sub) [
      | inl (fails, same) ↦ absurd (fails ok)
      | inr (succeeds, (job, s)) ↦
          let m' = (submit_build m fresh_id now sub).0 in
          let queue : m'.queue ≡ m.queue ++ job ∷ [] = ground (arith, s.queued) in
          let shorter : length m'.queue ≡ length m.queue + 1 =
            rw queue (omega (arith, length-append m.queue (job ∷ []))) in
          let capacity : m'.config.workers ≡ m.config.workers = ap (λ c. c.workers) s.same_config in
          let (dispatched, bound) = dispatch_pending_jobs-queue m' (omega arith) in
          let pending_now : list_pending m'.store ≡ job ∷ [] =
            list_pending-append m.store m'.store job s.is_pending s.row
            ∙ ap (λ l. l ++ job ∷ []) none_pending in
          let taken : take (room m') (job ∷ []) ≡ job ∷ [] = take_one (room m') job (omega arith) in
          (
            job,
            s.new_id,
            dispatched
                ∙ rw (pending_now, taken, queue) (append_assoc m.queue (job ∷ []) (job ∷ [])),
          )
    ]
