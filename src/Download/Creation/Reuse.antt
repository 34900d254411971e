-- ===== src/Download/Creation/Reuse.antt =====
-- `createOrReuseJobForComponent` and `CreateJobsForDistribution` of ldfd/download/manager.go as a whole. A
-- candidate's fresh id serves each attempt to create its row, since only a failed one leads to another.
use ldf.Prelude.{
  ℕ, Text, codes, true, not, ◌||◌, if◌then◌else◌, List, [], ◌∷◌, ◌++◌, Option, none, some, is_nil,
}
use ldf.Download.Url.{build_url}
use ldf.Download.Jobs.{
  DownloadJob, Tables, get_by_source_and_version, get_completed_by_source_and_version,
  add_component_to_job,
}
use ldf.Download.Cache.{CacheEntry, lookup, store}
use ldf.Download.Creation.{
  Distribution, Component, Source, Candidate, Caching, State, Outcome, new_job, reused, failed,
  build_dist_artifact_path, created_id, job_for, url_or_empty, create_copied, create_pending,
}

-- Another component of a job that is there.
unfoldable pub add_to_job : State → Text → Component → State
unfolding add_component_to_job
add_to_job state id component = record state {
  db = (add_component_to_job state.db id component.id).0;
}

new_jobs : Outcome → List DownloadJob
new_jobs (new_job job) = job ∷ []
new_jobs (reused id) = []
new_jobs (failed message) = []

module _ (dist : Distribution) (max_retries : ℕ) where
  -- What a copied artifact comes to: a job, or the rest of the method.
  unfoldable pub copied :
      State → Candidate → Source → Option (Tables × DownloadJob) → State × Outcome → State × Outcome
  copied state candidate source none rest = rest
  copied state candidate source (some (db', job)) rest = (
    record state { db = db'; created = (source.id, candidate.version, job.id) ∷ state.created },
    new_job job,
  )

  -- The completed download of any distribution.
  unfoldable pub from_other_distribution :
      Caching → State → Candidate → Component → Source → Option DownloadJob → State × Outcome
  unfolding url_or_empty build_url build_dist_artifact_path create_copied copied create_pending
      job_for store
  from_other_distribution caching state candidate component source none =
      create_pending dist max_retries state candidate component source
  from_other_distribution caching state candidate component source (some other) =
      let url =
        url_or_empty
          (build_url (some source.upstream) (some component.templates) candidate.version) in
      let path = build_dist_artifact_path dist source component candidate.version url in
      let pending = create_pending dist max_retries state candidate component source in
      let entries' =
        store caching.config caching.storage state.entries candidate.entry_id candidate.now
          source.id candidate.version other.artifact_path other.checksum other.total_bytes in
      let job =
        job_for dist component source candidate.version url source.retrieval_method max_retries in
      let state' = record state { entries = entries' } in
      if is_nil other.artifact_path || not (caching.storage.copies other.artifact_path path)
      then pending
      else copied state' candidate source
          (create_copied dist max_retries state.db candidate job path other.checksum
            other.total_bytes)
          (create_pending dist max_retries state' candidate component source)

  -- The cache's entry, and without one the other distributions.
  unfoldable pub from_cache :
      Caching → State → Candidate → Component → Source → Option CacheEntry → State × Outcome
  unfolding url_or_empty build_url build_dist_artifact_path create_copied copied job_for
      from_other_distribution get_completed_by_source_and_version
  from_cache caching state candidate component source none =
      from_other_distribution caching state candidate component source
        (get_completed_by_source_and_version state.db source.id candidate.version)
  from_cache caching state candidate component source (some entry) =
      let url =
        url_or_empty
          (build_url (some source.upstream) (some component.templates) candidate.version) in
      let path = build_dist_artifact_path dist source component candidate.version url in
      let rest =
        from_other_distribution caching state candidate component source
          (get_completed_by_source_and_version state.db source.id candidate.version) in
      let job =
        job_for dist component source candidate.version url source.retrieval_method max_retries in
      if not (caching.storage.copies entry.cache_path path)
      then rest
      else copied state candidate source
          (create_copied dist max_retries state.db candidate record job { cache_hit = true } path
            entry.checksum entry.size_bytes)
          rest

  -- The part behind the look at the distribution's own jobs.
  unfoldable pub create_new :
      Option Caching → State → Candidate → Component → Source → State × Outcome
  unfolding create_pending lookup from_cache
  create_new none state candidate component source =
      create_pending dist max_retries state candidate component source
  create_new (some caching) state candidate component source =
      let (entries', entry) =
        lookup caching.config caching.storage state.entries candidate.now source.id
          candidate.version in
      from_cache caching (record state { entries = entries' }) candidate component source entry

  unfoldable pub reuse_or_create :
      Option Caching → State → Candidate → Component → Source → State × Outcome
  unfolding created_id get_by_source_and_version add_to_job create_new
  reuse_or_create caching state candidate component source =
      if is_nil candidate.version
      then (state, failed (codes "no version specified for component"))
      else elim (created_id state.created source.id candidate.version) [
        | some id ↦ (add_to_job state id component, reused id)
        | none ↦ elim (get_by_source_and_version state.db dist.id source.id candidate.version) [
          | some existing ↦ (
            record (add_to_job state existing.id component) {
              created = (source.id, candidate.version, existing.id) ∷ state.created;
            },
            reused existing.id,
          )
          | none ↦ create_new caching state candidate component source
        ]
      ]

  -- `createOrReuseJobForComponent`
  unfoldable pub create_or_reuse_job_for_component :
      Option Caching → State → Candidate → State × Outcome
  unfolding reuse_or_create
  create_or_reuse_job_for_component caching state candidate = elim candidate.component [
    | none ↦ (state, failed (codes "component not found"))
    | some component ↦ elim candidate.source [
      | none ↦ (state, failed (codes "no source available for component"))
      | some source ↦ reuse_or_create caching state candidate component source
    ]
  ]

  unfoldable pub create_jobs : Option Caching → State → List Candidate → State × List DownloadJob
  unfolding create_or_reuse_job_for_component new_jobs
  create_jobs caching state [] = (state, [])
  create_jobs caching state (candidate ∷ candidates) =
      let (state', outcome) = create_or_reuse_job_for_component caching state candidate in
      let (state'', jobs) = create_jobs caching state' candidates in
      (state'', new_jobs outcome ++ jobs)

  -- `CreateJobsForDistribution`, for the candidates of the required components.
  unfoldable pub create_jobs_for_distribution :
      Option Caching → Tables → List CacheEntry → List Candidate → State × List DownloadJob
  unfolding create_jobs
  create_jobs_for_distribution caching db entries candidates =
      create_jobs caching record { db = db; entries = entries; created = [] } candidates
