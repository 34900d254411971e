-- ===== src/Download/Manager.antt =====
-- The life of the manager of ldfd/download/manager.go: its configuration, Start and Stop, and the ways of a
-- job into the queue. The queue is a channel that holds twice as many jobs as there are workers and that
-- Stop closes; a send on a closed channel panics, which is none. A limit or a delay below 0 is one of 0.
pub mod Calls
pub mod Stops
use ldf.Prelude.{
  ℕ, ◌+◌, ◌*◌, Text, Bool, true, false, not, ◌&&◌, ◌||◌, ltb, ◌==◌, if◌then◌else◌, List, [], ◌∷◌,
  ◌++◌, Option, none, some, length, keep, drop,
}
use ldf.Download.Jobs.{
  DownloadJobStatus, job_pending, DownloadJob, default_job_status, Tables, TableError, create_job,
}

-- Without what the cache, the mirrors and the throttling take of it.
pub record Config : Type 0 where
  pub workers : ℕ
  pub retry_delay : ℕ
  pub request_timeout : ℕ
  pub max_retries : ℕ

-- `DefaultConfig`, with times in nanoseconds.
unfoldable pub default_config : Config
default_config = record {
  workers = 3;
  retry_delay = 5000000000;
  request_timeout = 30000000000;
  max_retries = 3;
}

-- What `NewManager` makes of its configuration.
unfoldable pub normalized : Config → Config
unfolding default_config
normalized cfg = record {
  workers = if cfg.workers == 0 then default_config.workers else cfg.workers;
  retry_delay = if cfg.retry_delay == 0 then default_config.retry_delay else cfg.retry_delay;
  request_timeout =
      if cfg.request_timeout == 0 then default_config.request_timeout else cfg.request_timeout;
  max_retries = if cfg.max_retries == 0 then default_config.max_retries else cfg.max_retries;
}

pub record Manager : Type 0 where
  pub config : Config
  pub db : Tables
  pub queue : List DownloadJob
  pub is_closed : Bool
  pub running : Bool
  pub is_cancelled : Bool

unfoldable pub new_manager : Config → Tables → Manager
unfolding normalized
new_manager cfg db = record {
  config = normalized cfg;
  db = db;
  queue = [];
  is_closed = false;
  running = false;
  is_cancelled = false;
}

-- `Start`, and whether it is an error.
unfoldable pub start : Manager → Manager × Bool
start m =
    if m.running then (m, true) else (record m { running = true; is_cancelled = false }, false)

-- `Stop`; closing a channel that is closed panics.
unfoldable pub stop : Manager → Option Manager
stop m =
    if not m.running
    then some m
    else if m.is_closed
    then none
    else some (record m { running = false; is_cancelled = true; is_closed = true })

unfoldable pub has_room : Manager → Bool
has_room m = ltb (length m.queue) (m.config.workers * 2)

-- The send on the queue under `select` with a `default`.
unfoldable pub try_send : Manager → DownloadJob → Option Manager
unfolding has_room
try_send m job =
    if m.is_closed
    then none
    else if has_room m
    then some (record m { queue = m.queue ++ job ∷ [] })
    else some m

insert_pending : DownloadJob → List DownloadJob → List DownloadJob
insert_pending job [] = job ∷ []
insert_pending job (other ∷ jobs) =
    let rest = insert_pending job jobs in
    if ltb job.priority other.priority
      || (job.priority == other.priority && ltb other.created_at job.created_at)
    then other ∷ rest
    else job ∷ other ∷ jobs

sorted_pending : List DownloadJob → List DownloadJob
unfolding insert_pending
sorted_pending [] = []
sorted_pending (job ∷ jobs) = insert_pending job (sorted_pending jobs)

is_pending : DownloadJob → Bool
is_pending job = elim job.status [ job_pending ↦ true | _ ↦ false ]

-- `ListPending` of ldfd/db/download_jobs.go; of two jobs that are alike the earlier row comes first.
unfoldable pub list_pending : Tables → List DownloadJob
unfolding is_pending sorted_pending
list_pending db = sorted_pending (keep is_pending db.jobs)

-- The loop of `dispatchPendingJobs`. Where the context has been cancelled and a send is possible too,
-- `select` takes either way: `returns` says for a job whether it is the return.
unfoldable pub dispatch_jobs : (DownloadJob → Bool) → List DownloadJob → Manager → Option Manager
unfolding has_room
dispatch_jobs returns [] m = some m
dispatch_jobs returns (job ∷ jobs) m =
    let rest = dispatch_jobs returns jobs (record m { queue = m.queue ++ job ∷ [] }) in
    let can_send = m.is_closed || has_room m in
    if m.is_cancelled && (returns job || not can_send)
    then some m
    else if m.is_closed
    then none
    else if has_room m
    then rest
    else some m

-- `dispatchPendingJobs`
unfoldable pub dispatch_pending_jobs : (DownloadJob → Bool) → Manager → Option Manager
unfolding dispatch_jobs list_pending
dispatch_pending_jobs returns m = dispatch_jobs returns (list_pending m.db) m

-- The defaults of `SubmitJob`.
unfoldable pub with_defaults : Config → DownloadJob → DownloadJob
unfolding default_job_status
with_defaults cfg job = record job {
  max_retries = if job.max_retries == 0 then cfg.max_retries else job.max_retries;
  status = default_job_status job.status;
}

-- `SubmitJob`, for a fresh id and the time.
unfoldable pub submit_job : Manager → Text → ℕ → DownloadJob → Option (Manager × Option TableError)
unfolding create_job with_defaults try_send
submit_job m fresh_id now job =
    let (db', job', error) = create_job m.db fresh_id now (with_defaults m.config job) in
    elim error [
      | some e ↦ some (m, some e)
      | none ↦ elim (try_send (record m { db = db' }) job') [
        | none ↦ none
        | some m' ↦ some (m', none)
      ]
    ]

pub data Call : Type 0 where
  starts stops takes : Call
  submits : Text → ℕ → DownloadJob → Call
  dispatches : (DownloadJob → Bool) → Call

-- The manager behind a submission.
unfoldable pub behind : Option (Manager × Option TableError) → Option Manager
behind none = none
behind (some (m, error)) = some m

-- One call of a client, of the dispatcher, or of a worker, which takes a job from the queue.
unfoldable pub serve : Manager → Call → Option Manager
unfolding start stop submit_job dispatch_pending_jobs behind
serve m starts = some (start m).0
serve m stops = stop m
serve m takes = some (record m { queue = drop 1 m.queue })
serve m (submits fresh_id now job) = behind (submit_job m fresh_id now job)
serve m (dispatches returns) = dispatch_pending_jobs returns m

unfoldable pub serve_all : Manager → List Call → Option Manager
unfolding serve
serve_all m [] = some m
serve_all m (call ∷ calls) = elim (serve m call) [ none ↦ none | some m' ↦ serve_all m' calls ]
