-- ===== src/Download/Creation/Once.antt =====
-- That ldfd/download/manager.go downloads a source in a version once for a distribution.
use ldf.Prelude.{
  ℕ, Text, text_eq, Bool, false, ◌&&◌, if◌then◌else◌, List, [], ◌∷◌, ◌++◌, any, map, is_row,
  update_row, ◌≡◌, refl, arith, inl, inr, Bool-cases, or_false,
}
use ldf.Download.Jobs.{DownloadJob, Tables, job_key, update_job, create_job, job_filled_in}

-- A row for the same distribution, source and version as an earlier one.
unfoldable pub same_download : DownloadJob → DownloadJob → Bool
unfolding text_eq
same_download later earlier =
    text_eq later.distribution_id earlier.distribution_id
    && (text_eq later.source_id earlier.source_id && text_eq later.version earlier.version)

-- A distribution has at most one job for a source in a version.
unfoldable pub DownloadsUnique : List DownloadJob → Type 0
unfolding same_download
DownloadsUnique [] = Unit
DownloadsUnique (job ∷ rows) =
    (any (λ later. same_download later job) rows ≡ false) × DownloadsUnique rows

-- A change of a row that keeps what it downloads.
abbrev pub KeepsDownload : (DownloadJob → DownloadJob) → Type 0
KeepsDownload f =
    (job : DownloadJob)
    → ((f job).distribution_id ≡ job.distribution_id)
      × ((f job).source_id ≡ job.source_id)
      × ((f job).version ≡ job.version)

-- Changes of the rows: some rows are changed, and a row is added for something that no row downloads.
pub data Grown : List DownloadJob → List DownloadJob → Type 0 where
  unchanged : {rows : List DownloadJob} → Grown rows rows
  mapped :
      {rows rows' : List DownloadJob} (f : DownloadJob → DownloadJob)
      → KeepsDownload f
      → Grown (map f rows) rows'
      → Grown rows rows'
  added :
      {rows rows' : List DownloadJob} (job : DownloadJob)
      → any (same_download job) rows ≡ false
      → Grown (rows ++ job ∷ []) rows'
      → Grown rows rows'

pub Grown-append : {a b c : List DownloadJob} → Grown a b → Grown b c → Grown a c
Grown-append unchanged d = d
Grown-append (mapped f k g) d = mapped f k (Grown-append g d)
Grown-append (added job new g) d = added job new (Grown-append g d)

any-append_false :
    (test : DownloadJob → Bool) (rows : List DownloadJob) (job : DownloadJob)
    → any test rows ≡ false
    → test job ≡ false
    → any test (rows ++ job ∷ []) ≡ false
any-append_false test [] job before new = ground arith
any-append_false test (row ∷ rows) job before new = ground (arith, any-append_false test rows job)

DownloadsUnique-append :
    (rows : List DownloadJob) (job : DownloadJob)
    → DownloadsUnique rows
    → any (same_download job) rows ≡ false
    → DownloadsUnique (rows ++ job ∷ [])
unfolding DownloadsUnique
DownloadsUnique-append [] job u new = (refl, tt)
DownloadsUnique-append (row ∷ rows) job u new =
    let (head, rest) = or_false (same_download job row) _ new in
    (
      any-append_false (λ later. same_download later row) rows job u.0 head,
      DownloadsUnique-append rows job u.1 rest,
    )

same_download-map :
    (f : DownloadJob → DownloadJob) (later earlier : DownloadJob)
    → KeepsDownload f
    → same_download (f later) (f earlier) ≡ same_download later earlier
unfolding same_download
same_download-map f later earlier k =
    let (d, s, v) = k later in let (d', s', v') = k earlier in rw (d, s, v, d', s', v') refl

any-map_same :
    (f : DownloadJob → DownloadJob) (rows : List DownloadJob) (job : DownloadJob)
    → KeepsDownload f
    → any (λ later. same_download later job) rows ≡ false
    → any (λ later. same_download later (f job)) (map f rows) ≡ false
any-map_same f [] job k h = refl
any-map_same f (row ∷ rows) job k h =
    let (head, rest) = or_false (same_download row job) _ h in
    rw (same_download-map f row job k, head) (any-map_same f rows job k rest)

DownloadsUnique-map :
    (f : DownloadJob → DownloadJob) (rows : List DownloadJob)
    → KeepsDownload f
    → DownloadsUnique rows
    → DownloadsUnique (map f rows)
unfolding DownloadsUnique
DownloadsUnique-map f [] k u = tt
DownloadsUnique-map f (row ∷ rows) k u =
    (any-map_same f rows row k u.0, DownloadsUnique-map f rows k u.1)

pub DownloadsUnique-Grown :
    {rows rows' : List DownloadJob}
    → Grown rows rows'
    → DownloadsUnique rows
    → DownloadsUnique rows'
DownloadsUnique-Grown unchanged u = u
DownloadsUnique-Grown {rows = rows} (mapped f k g) u =
    DownloadsUnique-Grown g (DownloadsUnique-map f rows k u)
DownloadsUnique-Grown {rows = rows} (added job new g) u =
    DownloadsUnique-Grown g (DownloadsUnique-append rows job u new)

KeepsDownload-update :
    (id : Text) (f : DownloadJob → DownloadJob)
    → KeepsDownload f
    → KeepsDownload (λ row. if text_eq id (job_key row) then f row else row)
KeepsDownload-update id f k row = elim (Bool-cases (text_eq id (job_key row))) [
  | inl e ↦ rw e (k row)
  | inr e ↦ rw e (refl, refl, refl)
]

pub update_job-Grown :
    (db : Tables) (id : Text) (f : DownloadJob → DownloadJob)
    → KeepsDownload f
    → Grown db.jobs (update_job db id f).0.jobs
unfolding update_job update_row
update_job-Grown db id f k = elim (Bool-cases (is_row job_key id db.jobs)) [
  | inl e ↦ rw (e, update_job) (mapped _ (KeepsDownload-update id f k) unchanged)
  | inr e ↦ rw (e, update_job) unchanged
]

pub create_job-Grown :
    (db : Tables) (fresh_id : Text) (now : ℕ) (job : DownloadJob)
    → any (same_download job) db.jobs ≡ false
    → Grown db.jobs (create_job db fresh_id now job).0.jobs
unfolding create_job job_filled_in same_download
create_job-Grown db fresh_id now job new =
    let job' = job_filled_in fresh_id now job in
    let parents =
      any (text_eq job'.distribution_id) db.distribution_ids
      && any (text_eq job'.component_id) db.component_ids in
    elim (Bool-cases (is_row job_key job'.id db.jobs)) [
      | inl e ↦ rw (e, create_job) unchanged
      | inr e ↦ elim (Bool-cases parents) [
        | inl e' ↦ rw (e, e', create_job) (added job' new unchanged)
        | inr e' ↦ rw (e, e', create_job) unchanged
      ]
    ]
