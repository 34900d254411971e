-- ===== src/Download/Manager/Stops.antt =====
-- What the manager of ldfd/download/manager.go does behind its Stop.
use ldf.Prelude.{ℕ, Text, true, false, [], ◌∷◌, none, some, ◌≡◌, refl}
use ldf.Download.Jobs.{DownloadJob, create_job}
use ldf.Download.Manager.{
  Manager, start, stop, try_send, with_defaults, submit_job, starts, stops, submits, behind, serve,
  serve_all,
}

-- The manager that Stop leaves.
abbrev closed : Manager → Manager
closed m = record m { running = false; is_cancelled = true; is_closed = true }

stop-closed : (m : Manager) → m.running ≡ true → m.is_closed ≡ false → stop m ≡ some (closed m)
unfolding stop
stop-closed m r o = simp (r, o, stop) refl

submit_job-closed :
    (m : Manager) (fresh_id : Text) (now : ℕ) (job : DownloadJob)
    → (create_job m.db fresh_id now (with_defaults m.config job)).2 ≡ none
    → submit_job (closed m) fresh_id now job ≡ none
unfolding submit_job try_send
submit_job-closed m fresh_id now job e = rw (e, submit_job) refl

-- Behind the Stop of a running manager, the submission of a job whose row can be created panics, and so
-- does a second Stop if the manager has been started again.
pub serve_all-stopped :
    (m : Manager) (fresh_id : Text) (now : ℕ) (job : DownloadJob)
    → m.running ≡ true
    → m.is_closed ≡ false
    → (create_job m.db fresh_id now (with_defaults m.config job)).2 ≡ none
    → (serve_all m (stops ∷ submits fresh_id now job ∷ []) ≡ none)
      × (serve_all m (stops ∷ starts ∷ stops ∷ []) ≡ none)
unfolding serve_all serve behind start stop
serve_all-stopped m fresh_id now job r o e =
    let stopped = stop-closed m r o in
    let panics = submit_job-closed m fresh_id now job e in
    (rw (stopped, panics, serve_all, serve, behind) refl, rw (stopped, serve_all, serve) refl)
