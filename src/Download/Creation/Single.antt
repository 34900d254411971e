-- ===== src/Download/Creation/Single.antt =====
-- That `CreateJobsForDistribution` of ldfd/download/manager.go adds no second job for a source and a
-- version to a distribution.
use ldf.Prelude.{ℕ, List, [], ◌∷◌, Option, none, some, is_nil, inl, inr, Bool-cases, Option-cases}
use ldf.Download.Jobs.{Tables, get_by_source_and_version}
use ldf.Download.Cache.{CacheEntry, lookup}
use ldf.Download.Creation.{Distribution, Component, Source, Candidate, Caching, State, created_id}
use ldf.Download.Creation.Reuse.{
  create_new, reuse_or_create, create_or_reuse_job_for_component, create_jobs,
  create_jobs_for_distribution,
}
use ldf.Download.Creation.Once.{
  DownloadsUnique, Grown, unchanged, Grown-append, DownloadsUnique-Grown,
}
use ldf.Download.Creation.Copies.{Absent, add_to_job-Grown, create_pending-Grown, from_cache-Grown}

module _ (dist : Distribution) (max_retries : ℕ) where
  create_new-Grown :
      (caching : Option Caching) (state : State) (candidate : Candidate) (component : Component)
      (source : Source)
      → Absent dist max_retries state.db source candidate
      → Grown state.db.jobs
          (create_new dist max_retries caching state candidate component source).0.db.jobs
  unfolding create_new
  create_new-Grown none state candidate component source absent =
      create_pending-Grown dist max_retries state candidate component source absent
  create_new-Grown (some caching) state candidate component source absent =
      let looked =
        lookup caching.config caching.storage state.entries candidate.now source.id
          candidate.version in
      let state' : State = record state { entries = looked.0 } in
      from_cache-Grown dist max_retries caching state' candidate component source looked.1 absent

  reuse_or_create-Grown :
      (caching : Option Caching) (state : State) (candidate : Candidate) (component : Component)
      (source : Source)
      → Grown state.db.jobs
          (reuse_or_create dist max_retries caching state candidate component source).0.db.jobs
  unfolding reuse_or_create
  reuse_or_create-Grown caching state candidate component source =
      elim (Bool-cases (is_nil candidate.version)) [
        | inl e ↦ rw (e, reuse_or_create) unchanged
        | inr e ↦ elim (Option-cases (created_id state.created source.id candidate.version)) [
          | inr (id, e') ↦ rw (e, e', reuse_or_create) (add_to_job-Grown state id component)
          | inl e' ↦
              elim (Option-cases
                (get_by_source_and_version state.db dist.id source.id candidate.version)) [
                  | inr (existing, e'') ↦
                      rw (e, e', e'', reuse_or_create)
                        (add_to_job-Grown state existing.id component)
                  | inl absent ↦
                      rw (e, e', absent, reuse_or_create)
                        (create_new-Grown caching state candidate component source absent)
                ]
        ]
      ]

  create_or_reuse-Grown :
      (caching : Option Caching) (state : State) (candidate : Candidate)
      → Grown state.db.jobs
          (create_or_reuse_job_for_component dist max_retries caching state candidate).0.db.jobs
  unfolding create_or_reuse_job_for_component
  create_or_reuse-Grown caching state candidate = elim (Option-cases candidate.component) [
    | inl e ↦ rw (e, create_or_reuse_job_for_component) unchanged
    | inr (component, e) ↦ elim (Option-cases candidate.source) [
      | inl e' ↦ rw (e, e', create_or_reuse_job_for_component) unchanged
      | inr (source, e') ↦
          rw (e, e', create_or_reuse_job_for_component)
            (reuse_or_create-Grown caching state candidate component source)
    ]
  ]

  create_jobs-Grown :
      (caching : Option Caching) (state : State) (candidates : List Candidate)
      → Grown state.db.jobs (create_jobs dist max_retries caching state candidates).0.db.jobs
  unfolding create_jobs
  create_jobs-Grown caching state [] = unchanged
  create_jobs-Grown caching state (candidate ∷ candidates) =
      let state' = (create_or_reuse_job_for_component dist max_retries caching state candidate).0 in
      Grown-append (create_or_reuse-Grown caching state candidate)
        (create_jobs-Grown caching state' candidates)

-- Creating the jobs of a distribution keeps it that no distribution has two jobs for one source in one
-- version, whatever the cache holds, the storage answers and the components share.
pub create_jobs_for_distribution-DownloadsUnique :
    (dist : Distribution) (max_retries : ℕ) (caching : Option Caching) (db : Tables)
    (entries : List CacheEntry) (candidates : List Candidate)
    → DownloadsUnique db.jobs
    → DownloadsUnique
        (create_jobs_for_distribution dist max_retries caching db entries candidates).0.db.jobs
unfolding create_jobs_for_distribution
create_jobs_for_distribution-DownloadsUnique dist max_retries caching db entries candidates unique =
    DownloadsUnique-Grown
      (create_jobs-Grown dist max_retries caching
        record { db = db; entries = entries; created = [] } candidates)
      unique
