-- ===== src/Download/Creation/Copies.antt =====
-- The rows of the jobs that `createOrReuseJobForComponent` of ldfd/download/manager.go creates: that each
-- of its ways to a job lets the table grow by one download at most.
use ldf.Prelude.{
  ℕ, Text, codes, Bool, true, false, not, ◌||◌, if◌then◌else◌, List, [], ◌∷◌, Option, none, some,
  any, is_nil, find_first, ◌≡◌, ◌⊎◌, refl, arith, inl, inr, Bool-cases, Option-cases,
}
use ldf.Download.Url.{UrlResult, UrlError, built, refused, build_url}
use ldf.Download.Jobs.{
  DownloadJob, job_completed, Tables, create_job, get_by_source_and_version,
  get_completed_by_source_and_version, mark_job_completed,
}
use ldf.Download.Cache.{CacheEntry, store}
use ldf.Download.Worker.Rounds.{add_component_to_job-or}
use ldf.Download.Creation.{
  Distribution, Component, Source, Candidate, Caching, State, Outcome, build_dist_artifact_path,
  component_priority, job_for, url_or_empty, create_copied, create_pending,
}
use ldf.Download.Creation.Reuse.{add_to_job, copied, from_other_distribution, from_cache}
use ldf.Download.Creation.Once.{
  same_download, Grown, unchanged, Grown-append, update_job-Grown, create_job-Grown,
}

any_of_none :
    {A : Type 0} (test : A → Bool) (rows : List A)
    → find_first test rows ≡ none
    → any test rows ≡ false
any_of_none test [] h = refl
any_of_none test (row ∷ rows) h = ground (arith, any_of_none test rows)

pub add_to_job-Grown :
    (state : State) (id : Text) (component : Component)
    → Grown state.db.jobs (add_to_job state id component).db.jobs
unfolding add_to_job
add_to_job-Grown state id component = elim (add_component_to_job-or state.db id component.id) [
  | inl e ↦ rw (e, add_to_job) unchanged
  | inr (ids, e) ↦ rw (e, add_to_job) (update_job-Grown state.db id _ (λ job. (refl, refl, refl)))
]

UrlResult-cases :
    (r : UrlResult) → ((url : Text) × (r ≡ built url)) ⊎ ((error : UrlError) × (r ≡ refused error))
UrlResult-cases (built url) = inl (url, refl)
UrlResult-cases (refused error) = inr (error, refl)

module _ (dist : Distribution) (max_retries : ℕ) where
  -- No row of the distribution downloads the source in the version.
  abbrev pub Absent : Tables → Source → Candidate → Type 0
  Absent db source candidate =
      get_by_source_and_version db dist.id source.id candidate.version ≡ none

  create-Grown :
      (db : Tables) (candidate : Candidate) (source : Source) (job : DownloadJob)
      → Absent db source candidate
      → job.distribution_id ≡ dist.id
      → job.source_id ≡ source.id
      → job.version ≡ candidate.version
      → Grown db.jobs (create_job db candidate.job_id candidate.now job).0.jobs
  unfolding get_by_source_and_version same_download
  create-Grown db candidate source job absent d s v =
      create_job-Grown db candidate.job_id candidate.now job
        (rw (d, s, v) (any_of_none _ db.jobs absent))

  pub create_pending-Grown :
      (state : State) (candidate : Candidate) (component : Component) (source : Source)
      → Absent state.db source candidate
      → Grown state.db.jobs
          (create_pending dist max_retries state candidate component source).0.db.jobs
  unfolding create_pending job_for
  create_pending-Grown state candidate component source absent =
      let pending : Text → DownloadJob = λ url.
        record (job_for dist component source candidate.version url
          (if is_nil source.retrieval_method then codes "release" else source.retrieval_method)
          max_retries) { priority = component_priority component } in
      elim (UrlResult-cases
        (build_url (some source.upstream) (some component.templates) candidate.version)) [
          | inr (error, e) ↦ rw (e, create_pending) unchanged
          | inl (url, e) ↦
              let made = create_job state.db candidate.job_id candidate.now (pending url) in
              elim (Option-cases made.2) [
                | inr (error, e') ↦ rw (e, e', create_pending) unchanged
                | inl e' ↦
                    rw (e, e', create_pending)
                      (create-Grown state.db candidate source (pending url) absent refl refl refl)
              ]
        ]

  -- A copied artifact's job comes from the rows by growth, if there is one.
  abbrev Made : Tables → Option (Tables × DownloadJob) → Type 0
  Made db none = Unit
  Made db (some (db', job)) = Grown db.jobs db'.jobs

  create_copied-Made :
      (db : Tables) (candidate : Candidate) (source : Source) (job : DownloadJob)
      (path checksum : Text) (total_bytes : ℕ)
      → Absent db source candidate
      → job.distribution_id ≡ dist.id
      → job.source_id ≡ source.id
      → job.version ≡ candidate.version
      → Made db (create_copied dist max_retries db candidate job path checksum total_bytes)
  unfolding create_copied mark_job_completed
  create_copied-Made db candidate source job path checksum total_bytes absent d s v =
      let job' : DownloadJob = record job {
        status = job_completed;
        artifact_path = path;
        checksum = checksum;
      } in
      let made = create_job db candidate.job_id candidate.now job' in
      let grown = create-Grown db candidate source job' absent d s v in
      elim (Option-cases made.2) [
        | inr (error, e) ↦ rw (e, create_copied) tt
        | inl e ↦
            rw (e, create_copied)
              (Grown-append grown (update_job-Grown made.0 made.1.id _ (λ row. (refl, refl, refl))))
      ]

  copied-Grown :
      (db : Tables) (state : State) (candidate : Candidate) (source : Source)
      (made : Option (Tables × DownloadJob)) (rest : State × Outcome)
      → Made db made
      → Grown db.jobs rest.0.db.jobs
      → Grown db.jobs (copied dist max_retries state candidate source made rest).0.db.jobs
  unfolding copied
  copied-Grown db state candidate source none rest m r = r
  copied-Grown db state candidate source (some (db', job)) rest m r = m

  from_other_distribution-Grown :
      (caching : Caching) (state : State) (candidate : Candidate) (component : Component)
      (source : Source) (other : Option DownloadJob)
      → Absent state.db source candidate
      → Grown state.db.jobs
          (from_other_distribution dist max_retries caching state candidate component source
            other).0.db.jobs
  unfolding from_other_distribution job_for
  from_other_distribution-Grown caching state candidate component source none absent =
      create_pending-Grown state candidate component source absent
  from_other_distribution-Grown caching state candidate component source (some other) absent =
      let url =
        url_or_empty
          (build_url (some source.upstream) (some component.templates) candidate.version) in
      let path = build_dist_artifact_path dist source component candidate.version url in
      elim (Bool-cases
        (is_nil other.artifact_path || not (caching.storage.copies other.artifact_path path))) [
          | inl e ↦
              rw (e, from_other_distribution)
                (create_pending-Grown state candidate component source absent)
          | inr e ↦
              let job =
                job_for dist component source candidate.version url source.retrieval_method
                  max_retries in
              let state' : State = record state {
                entries =
                    store caching.config caching.storage state.entries candidate.entry_id
                      candidate.now source.id candidate.version other.artifact_path other.checksum
                      other.total_bytes;
              } in
              rw (e, from_other_distribution)
                (copied-Grown state.db state' candidate source
                  (create_copied dist max_retries state.db candidate job path other.checksum
                    other.total_bytes)
                  (create_pending dist max_retries state' candidate component source)
                  (create_copied-Made state.db candidate source job path other.checksum
                    other.total_bytes absent refl refl refl)
                  (create_pending-Grown state' candidate component source absent))
        ]

  pub from_cache-Grown :
      (caching : Caching) (state : State) (candidate : Candidate) (component : Component)
      (source : Source) (entry : Option CacheEntry)
      → Absent state.db source candidate
      → Grown state.db.jobs
          (from_cache dist max_retries caching state candidate component source entry).0.db.jobs
  unfolding from_cache job_for
  from_cache-Grown caching state candidate component source none absent =
      from_other_distribution-Grown caching state candidate component source _ absent
  from_cache-Grown caching state candidate component source (some entry) absent =
      let url =
        url_or_empty
          (build_url (some source.upstream) (some component.templates) candidate.version) in
      let path = build_dist_artifact_path dist source component candidate.version url in
      let rest =
        from_other_distribution-Grown caching state candidate component source
          (get_completed_by_source_and_version state.db source.id candidate.version) absent in
      elim (Bool-cases (caching.storage.copies entry.cache_path path)) [
        | inr e ↦ rw (e, from_cache) rest
        | inl e ↦
            let job : DownloadJob =
              record (job_for dist component source candidate.version url source.retrieval_method
                max_retries) { cache_hit = true } in
            rw (e, from_cache)
              (copied-Grown state.db state candidate source
                (create_copied dist max_retries state.db candidate job path entry.checksum
                  entry.size_bytes)
                (from_other_distribution dist max_retries caching state candidate component source
                  (get_completed_by_source_and_version state.db source.id candidate.version))
                (create_copied-Made state.db candidate source job path entry.checksum
                  entry.size_bytes absent refl refl refl)
                rest)
      ]
