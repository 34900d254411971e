-- ===== src/Download/Jobs/Rows.antt =====
-- What the statements of ldfd/db/download_jobs.go do to a job's row.
use ldf.Prelude.{
  Text, text_eq, Bool, true, false, none, some, ◌≡◌, arith, is_row, KeepsKey, find_row-update_row,
  find_row-update_other, is_row-update_row, find_row_of_is_row,
}
use ldf.Download.Jobs.{Tables, DownloadJob, job_key, get_job, update_job}

-- Whether a job has a row.
unfoldable pub has_job : Tables → Text → Bool
unfolding is_row
has_job db id = is_row job_key id db.jobs

abbrev pub KeepsJob : (DownloadJob → DownloadJob) → Type 0
KeepsJob f = KeepsKey job_key f

pub row-update_job :
    (db : Tables) (id : Text) (f : DownloadJob → DownloadJob)
    → KeepsJob f
    → has_job db id ≡ true
    → (job : DownloadJob) × (get_job db id ≡ some job)
      × (get_job (update_job db id f).0 id ≡ some (f job))
unfolding get_job update_job has_job
row-update_job db id f k h =
    let (job, e) = find_row_of_is_row job_key id db.jobs h in
    (job, e, ground (arith, find_row-update_row job_key id f db.jobs k))

pub other-update_job :
    (db : Tables) (id other : Text) (f : DownloadJob → DownloadJob)
    → KeepsJob f
    → text_eq id other ≡ false
    → get_job (update_job db id f).0 other ≡ get_job db other
unfolding get_job update_job
other-update_job db id other f k h =
    ground (arith, find_row-update_other job_key id other f db.jobs k)

pub has_job-update_job :
    (db : Tables) (id other : Text) (f : DownloadJob → DownloadJob)
    → KeepsJob f
    → has_job (update_job db id f).0 other ≡ has_job db other
unfolding update_job has_job
has_job-update_job db id other f k = ground (arith, is_row-update_row job_key id other f db.jobs k)

pub update_job-ok :
    (db : Tables) (id : Text) (f : DownloadJob → DownloadJob)
    → has_job db id ≡ true
    → (update_job db id f).1 ≡ none
unfolding update_job has_job
update_job-ok db id f h = ground arith
