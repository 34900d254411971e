-- ===== src/Download/Manager/Calls.antt =====
-- Which runs of calls of the manager of ldfd/download/manager.go panic, and how full its queue gets.
use ldf.Prelude.{
  ℕ, ◌*◌, ◌≤◌, Text, Bool, true, false, not, ◌&&◌, ◌||◌, List, [], ◌∷◌, ◌++◌, All, Option, none,
  some, length, length-append, drop, ◌≡◌, refl, arith, Bool-cases, Option-cases, inl, inr,
}
use ldf.Download.Jobs.{DownloadJob, Tables, create_job}
use ldf.Download.Manager.{
  Config, Manager, normalized, new_manager, start, stop, has_room, try_send, list_pending,
  dispatch_jobs, dispatch_pending_jobs, with_defaults, submit_job, Call, starts, stops, takes,
  submits, dispatches, behind, serve, serve_all,
}

-- Nothing but workers that take jobs, and further calls of Stop.
abbrev IsQuiet : Call → Type 0
IsQuiet stops = Unit
IsQuiet takes = Unit
IsQuiet starts = ⊥
IsQuiet (submits fresh_id now job) = ⊥
IsQuiet (dispatches returns) = ⊥

-- A run in which only quiet calls follow a call of Stop.
abbrev pub IsOrderly : List Call → Type 0
IsOrderly [] = Unit
IsOrderly (stops ∷ calls) = All IsQuiet calls × IsOrderly calls
IsOrderly (call ∷ calls) = IsOrderly calls

-- There is no more in the queue than it holds.
abbrev Fits : Manager → Type 0
Fits m = length m.queue ≤ m.config.workers * 2

-- The call does not panic, and its manager has an open channel, for which the queue is not too long.
abbrev Open : ℕ → Option Manager → Type 0
Open workers none = ⊥
Open workers (some m) =
    (m.is_closed ≡ false) × (m.config.workers ≡ workers) × (length m.queue ≤ workers * 2)

length-push :
    (m : Manager) (job : DownloadJob)
    → has_room m ≡ true
    → length (m.queue ++ job ∷ []) ≤ m.config.workers * 2
unfolding has_room
length-push m job room = let whole = length-append m.queue (job ∷ []) in ground arith

length-drop_one : (jobs : List DownloadJob) → length (drop 1 jobs) ≤ length jobs
length-drop_one [] = omega arith
length-drop_one (job ∷ jobs) = omega arith

try_send-Open :
    (m : Manager) (job : DownloadJob)
    → Open m.config.workers (some m)
    → Open m.config.workers (try_send m job)
unfolding try_send
try_send-Open m job (o, same, h) = elim (Bool-cases (has_room m)) [
  | inr full ↦ rw (o, full, try_send) (refl, refl, h)
  | inl room ↦ rw (o, room, try_send) (refl, refl, length-push m job room)
]

-- The manager that has the row of a new job.
abbrev with_tables : Manager → Tables → Manager
with_tables m db = record m { db = db }

submit_job-Open :
    (m : Manager) (fresh_id : Text) (now : ℕ) (job : DownloadJob)
    → Open m.config.workers (some m)
    → Open m.config.workers (behind (submit_job m fresh_id now job))
unfolding submit_job behind
submit_job-Open m fresh_id now job h =
    let made = create_job m.db fresh_id now (with_defaults m.config job) in
    elim (Option-cases made.2) [
      | inr (error, e) ↦ rw (e, submit_job, behind) h
      | inl e ↦
          let sent = try_send-Open (with_tables m made.0) made.1 h in
          elim (Option-cases (try_send (with_tables m made.0) made.1)) [
            | inl e' ↦ let no : ⊥ = rw e' at sent in elim no [ ]
            | inr (m', e') ↦ rw (e, e', submit_job, behind) (rw e' at sent)
          ]
    ]

dispatch_jobs-Open :
    (returns : DownloadJob → Bool) (jobs : List DownloadJob) (m : Manager)
    → Open m.config.workers (some m)
    → Open m.config.workers (dispatch_jobs returns jobs m)
unfolding dispatch_jobs has_room
dispatch_jobs-Open returns [] m h = h
dispatch_jobs-Open returns (job ∷ jobs) m (o, same, h) =
    elim (Bool-cases (m.is_cancelled && (returns job || not (m.is_closed || has_room m)))) [
      | inl e ↦ rw (e, dispatch_jobs) (o, same, h)
      | inr e ↦ elim (Bool-cases (has_room m)) [
        | inr full ↦ rw (e, o, full, dispatch_jobs) (refl, refl, h)
        | inl room ↦
            let more : Manager = record m { queue = m.queue ++ job ∷ [] } in
            let later = dispatch_jobs-Open returns jobs more (o, refl, length-push m job room) in
            rw (e, o, room, dispatch_jobs) (rw o at later)
      ]
    ]

-- The queue is not too long, and Stop has nothing to do.
abbrev Stopped : ℕ → Option Manager → Type 0
Stopped workers none = ⊥
Stopped workers (some m) =
    (m.running ≡ false) × (m.config.workers ≡ workers) × (length m.queue ≤ workers * 2)

stop_again : (m : Manager) → m.running ≡ false → stop m ≡ some m
unfolding stop
stop_again m h = ground (arith, h)

quiet-Stopped :
    (workers : ℕ) (m : Manager) (calls : List Call)
    → Stopped workers (some m)
    → All IsQuiet calls
    → Stopped workers (serve_all m calls)
unfolding serve_all serve stop
quiet-Stopped workers m [] h quiet = h
quiet-Stopped workers m (stops ∷ calls) h (q, quiet) =
    let same : stop m ≡ some m = stop_again m h.0 in
    rw (same, serve_all, serve) (quiet-Stopped workers m calls h quiet)
quiet-Stopped workers m (takes ∷ calls) (r, same, h) (q, quiet) =
    quiet-Stopped workers record m { queue = drop 1 m.queue } calls
      (r, same, (let less = length-drop_one m.queue in omega arith)) quiet
quiet-Stopped workers m (starts ∷ calls) h (q, quiet) = elim q [ ]
quiet-Stopped workers m (submits fresh_id now job ∷ calls) h (q, quiet) = elim q [ ]
quiet-Stopped workers m (dispatches returns ∷ calls) h (q, quiet) = elim q [ ]

-- A run has a manager in the end, whose queue is not too long.
abbrev pub Runs : ℕ → Option Manager → Type 0
Runs workers none = ⊥
Runs workers (some m) = length m.queue ≤ workers * 2

Runs-Stopped :
    (workers : ℕ) (result : Option Manager) → Stopped workers result → Runs workers result
Runs-Stopped workers none h = h
Runs-Stopped workers (some m) h = h.2

-- Stop leaves an open manager stopped.
stop-Stopped : (workers : ℕ) (m : Manager) → Open workers (some m) → Stopped workers (stop m)
unfolding stop
stop-Stopped workers m (o, same, h) = elim (Bool-cases m.running) [
  | inl e ↦ simp (e, o, stop) (refl, same, h)
  | inr e ↦ simp (e, stop) (refl, same, h)
]

own : (workers : ℕ) (m : Manager) → Open workers (some m) → Open m.config.workers (some m)
own workers m (o, same, h) = (o, refl, rw same h)

start-Open : (workers : ℕ) (m : Manager) → Open workers (some m) → Open workers (some (start m).0)
unfolding start
start-Open workers m (o, same, h) = elim (Bool-cases m.running) [
  | inl e ↦ simp (e, start) (o, same, h)
  | inr e ↦ simp (e, start) (o, same, h)
]

serve_all-Open :
    (workers : ℕ) (m : Manager) (calls : List Call)
    → Open workers (some m)
    → IsOrderly calls
    → Runs workers (serve_all m calls)
unfolding serve_all serve start dispatch_pending_jobs
serve_all-Open workers m [] h orderly = h.2
serve_all-Open workers m (stops ∷ calls) h (quiet, orderly) =
    let stopped = stop-Stopped workers m h in
    elim (Option-cases (stop m)) [
      | inl e ↦ let no : ⊥ = rw e at stopped in elim no [ ]
      | inr (m', e) ↦
          rw (e, serve_all, serve)
            (Runs-Stopped workers _ (quiet-Stopped workers m' calls (rw e at stopped) quiet))
    ]
serve_all-Open workers m (takes ∷ calls) (o, same, h) orderly =
    serve_all-Open workers record m { queue = drop 1 m.queue } calls
      (o, same, (let less = length-drop_one m.queue in omega arith)) orderly
serve_all-Open workers m (starts ∷ calls) (o, same, h) orderly =
    serve_all-Open workers (start m).0 calls (start-Open workers m (o, same, h)) orderly
serve_all-Open workers m (submits fresh_id now job ∷ calls) h orderly =
    let sent = submit_job-Open m fresh_id now job (own workers m h) in
    elim (Option-cases (behind (submit_job m fresh_id now job))) [
      | inl e ↦ let no : ⊥ = rw e at sent in elim no [ ]
      | inr (m', e) ↦
          rw (e, serve_all, serve)
            (serve_all-Open workers m' calls (rw h.1 at (rw e at sent)) orderly)
    ]
serve_all-Open workers m (dispatches returns ∷ calls) h orderly =
    let sent = dispatch_jobs-Open returns (list_pending m.db) m (own workers m h) in
    elim (Option-cases (dispatch_jobs returns (list_pending m.db) m)) [
      | inl e ↦ let no : ⊥ = rw e at sent in elim no [ ]
      | inr (m', e) ↦
          rw (e, serve_all, serve, dispatch_pending_jobs)
            (serve_all-Open workers m' calls (rw h.1 at (rw e at sent)) orderly)
    ]

-- From a new manager, a run of calls in which only workers and further calls of Stop follow a call of Stop
-- does not panic, and the queue that it leaves holds no more jobs than twice the number of workers.
pub serve_all-Runs :
    (cfg : Config) (db : Tables) (calls : List Call)
    → IsOrderly calls
    → Runs (normalized cfg).workers (serve_all (new_manager cfg db) calls)
unfolding new_manager
serve_all-Runs cfg db calls orderly =
    serve_all-Open (normalized cfg).workers (new_manager cfg db) calls (refl, refl, omega arith)
      orderly
