-- ===== src/Download/Worker/Isolation.antt =====
-- What a worker of ldfd/download/worker.go leaves alone: the rows of other jobs.
use ldf.Prelude.{ℕ, Text, text_eq, Bool, false, Option, ◌≡◌, refl, ◌∙◌}
use ldf.Download.Jobs.{DownloadJob, Tables, get_job}
use ldf.Download.Jobs.Rows.{other-update_job}
use ldf.Download.Mirror.{MirrorResolver}
use ldf.Download.Worker.{Round, process_job}
use ldf.Download.Worker.Rounds.{Updates, unchanged, updated}
use ldf.Download.Worker.Loop.{InTarget, process_from-Updates}

-- The ids of the rows that are not a given one.
abbrev Not : Text → Text → Type 0
Not other id = text_eq id other ≡ false

other-Updates :
    (other : Text) {db db' : Tables}
    → Updates (Not other) db db'
    → get_job db' other ≡ get_job db other
other-Updates other unchanged = refl
other-Updates other {db = db} (updated id f t m u) =
    other-Updates other u ∙ other-update_job db id other f m.0 t

-- A worker that runs a job never changes the row of another job that no handler changes meanwhile,
-- whatever the verifier, the network, the file system and the mirror answer.
pub process_job-other_row :
    (mirror : Option MirrorResolver) (has_cache : Bool) (job : DownloadJob) (env : ℕ → Round)
    (db : Tables) (other : Text)
    → text_eq job.id other ≡ false
    → ((k : ℕ) → InTarget (λ id. text_eq id other ≡ false) (env k))
    → get_job (process_job mirror has_cache job env db).db other ≡ get_job db other
unfolding process_job
process_job-other_row mirror has_cache job env db other own t =
    other-Updates other (process_from-Updates job own mirror has_cache env t _ _ _ db)
