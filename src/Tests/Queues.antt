-- ===== src/Tests/Queues.antt =====
-- The life of the manager of ldfd/download/manager.go on concrete runs.
use ldf.Prelude.{codes, true, false, List, [], ◌∷◌, none, map, ◌≡◌, refl}
use ldf.Download.Jobs.{DownloadJob, Tables, create_job}
use ldf.Download.Manager.{
  Config, Manager, normalized, new_manager, with_defaults, list_pending, starts, stops, takes,
  submits, dispatches, Call, serve_all,
}
use ldf.Download.Manager.Calls.{Runs, serve_all-Runs}
use ldf.Download.Manager.Stops.{serve_all-stopped}
use ldf.Tests.Downloads.{job_of}

abbrev one_worker : Config
one_worker = record { workers = 1; retry_delay = 0; request_timeout = 0; max_retries = 0 }

abbrev no_rows : Tables
no_rows = record { jobs = []; distribution_ids = codes "d" ∷ []; component_ids = codes "c" ∷ [] }

abbrev urgent : DownloadJob
urgent = record (job_of (codes "u")) { priority = 11 }

-- The job of a higher priority comes first.
urgent_first :
    map (λ job. job.id) (list_pending record no_rows { jobs = job_of (codes "a") ∷ urgent ∷ [] })
    ≡ codes "u" ∷ codes "a" ∷ []
unfolding list_pending
urgent_first = refl

-- Three submissions to a queue of two, a dispatch, and a stop after which a worker empties the queue.
abbrev busy_day : List Call
busy_day =
    starts
    ∷ submits (codes "1") 1 (job_of (codes "a"))
    ∷ submits (codes "2") 2 (job_of (codes "b"))
    ∷ submits (codes "3") 3 urgent
    ∷ takes
    ∷ dispatches (λ job. false)
    ∷ stops
    ∷ takes
    ∷ []

serve_all-Runs_example :
    Runs (normalized one_worker).workers (serve_all (new_manager one_worker no_rows) busy_day)
serve_all-Runs_example = serve_all-Runs one_worker no_rows busy_day ((tt, tt), tt)

abbrev started : Manager
started = record (new_manager one_worker no_rows) { running = true; is_closed = false }

row_made :
    (create_job started.db (codes "1") 1 (with_defaults started.config (job_of (codes "a")))).2
    ≡ none
unfolding create_job with_defaults new_manager
row_made = refl

serve_all-stopped_example :
    (serve_all started (stops ∷ submits (codes "1") 1 (job_of (codes "a")) ∷ []) ≡ none)
    × (serve_all started (stops ∷ starts ∷ stops ∷ []) ≡ none)
serve_all-stopped_example =
    serve_all-stopped started (codes "1") 1 (job_of (codes "a")) refl refl row_made
