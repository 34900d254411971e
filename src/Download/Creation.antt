-- ===== src/Download/Creation.antt =====
-- `CreateJobsForDistribution` and `createOrReuseJobForComponent` of ldfd/download/manager.go: the jobs that
-- a distribution gets, with its earlier jobs, the cache and the downloads of other distributions. What
-- the queries on components and sources and the storage answer is an argument.
pub mod Reuse
pub mod Once
pub mod Copies
pub mod Single
pub mod Paths
use ldf.Prelude.{
  ℕ, ◌+◌, Text, codes, text_eq, Bool, true, false, not, ◌&&◌, ◌||◌, if◌then◌else◌, List, [], ◌∷◌,
  ◌++◌, Option, none, some, is_nil, find_first, path_base,
}
use ldf.Download.Url
use ldf.Download.Url.{UrlResult, built, refused, build_url}
use ldf.Download.Jobs.{
  DownloadJob, job_pending, job_completed, Tables, TableError, create_job,
  get_by_source_and_version, get_completed_by_source_and_version, mark_job_completed,
  add_component_to_job,
}
use ldf.Download.Cache.{CacheConfig, CacheEntry, Storage, lookup, store}

pub record Distribution : Type 0 where
  pub id : Text
  pub owner_id : Text

pub record Component : Type 0 where
  pub id : Text
  pub category : Text
  pub templates : Url.Component

pub record Source : Type 0 where
  pub id : Text
  pub name : Text
  pub is_system : Bool
  pub retrieval_method : Text
  pub upstream : Url.UpstreamSource

-- What the queries find for a component's name, the version that the selection gives, and what the
-- random source and the clock answer.
pub record Candidate : Type 0 where
  pub component : Option Component
  pub source : Option Source
  pub version : Text
  pub job_id : Text
  pub entry_id : Text
  pub now : ℕ

-- The cache, where the manager has one.
pub record Caching : Type 0 where
  pub config : CacheConfig
  pub storage : Storage

-- The tables, the rows of the cache and the jobs that this call has created or found.
pub record State : Type 0 where
  pub db : Tables
  pub entries : List CacheEntry
  pub created : List (Text × Text × Text)

pub data Outcome : Type 0 where
  new_job : DownloadJob → Outcome
  reused : Text → Outcome
  failed : Text → Outcome

-- `GetSourceType` of ldfd/db/source_versions.go
unfoldable pub get_source_type : Source → Text
get_source_type source = if source.is_system then codes "default" else codes "user"

-- `componentPriority`
unfoldable pub component_priority : Component → ℕ
unfolding text_eq
component_priority c =
    if text_eq c.category (codes "core")
    then 10
    else if text_eq c.category (codes "bootloader")
    then 5
    else if text_eq c.category (codes "init")
    then 3
    else 0

-- `buildDistArtifactPath`
unfoldable pub build_dist_artifact_path : Distribution → Source → Component → Text → Text → Text
unfolding path_base text_eq
build_dist_artifact_path dist source component version resolved_url =
    let base = path_base resolved_url in
    let filename =
      if is_nil base || (text_eq base (codes ".") || text_eq base (codes "/"))
      then source.id ++ (codes "-" ++ (version ++ codes ".tar.gz"))
      else base in
    let subdir =
      if text_eq source.retrieval_method (codes "git")
      then codes "sources"
      else codes "components" in
    let path_id = if is_nil source.id then component.id else source.id in
    codes "distribution/"
    ++ (dist.owner_id
        ++ (codes "/"
            ++ (dist.id
                ++ (codes "/"
                    ++ (subdir
                        ++ (codes "/"
                            ++ (path_id
                                ++ (codes "/" ++ (version ++ (codes "/" ++ filename))))))))))

-- The key under which a job is remembered: the source and the version.
unfoldable pub created_id : List (Text × Text × Text) → Text → Text → Option Text
unfolding text_eq
created_id [] source_id version = none
created_id ((s, v, id) ∷ created) source_id version =
    let rest = created_id created source_id version in
    if text_eq source_id s && text_eq version v then some id else rest

-- The job as the code fills it in, up to its status and what goes with it.
unfoldable pub job_for : Distribution → Component → Source → Text → Text → Text → ℕ → DownloadJob
unfolding get_source_type
job_for dist component source version resolved_url retrieval_method max_retries = record {
  id = [];
  distribution_id = dist.id;
  owner_id = dist.owner_id;
  component_id = component.id;
  component_ids = component.id ∷ [];
  source_id = source.id;
  source_name = source.name;
  source_type = get_source_type source;
  retrieval_method = retrieval_method;
  resolved_url = resolved_url;
  version = version;
  status = job_pending;
  progress_bytes = 0;
  total_bytes = 0;
  created_at = 0;
  started_at = none;
  completed_at = none;
  artifact_path = [];
  checksum = [];
  error_message = [];
  retry_count = 0;
  max_retries = max_retries;
  priority = 0;
  cache_hit = false;
}

-- The URL that is ignored with its error where an artifact is copied.
unfoldable pub url_or_empty : UrlResult → Text
url_or_empty (built url) = url
url_or_empty (refused error) = []

-- A completed job for an artifact that was copied: none if its row could not be created.
unfoldable pub create_copied :
    Distribution
    → ℕ
    → Tables
    → Candidate
    → DownloadJob
    → Text
    → Text
    → ℕ
    → Option (Tables × DownloadJob)
unfolding create_job mark_job_completed
create_copied dist max_retries db candidate job artifact_path checksum total_bytes =
    let (db', job', error) =
      create_job db candidate.job_id candidate.now
        record job { status = job_completed; artifact_path = artifact_path; checksum = checksum } in
    elim error [
      | some e ↦ none
      | none ↦ some (
        (mark_job_completed db' candidate.now job'.id artifact_path checksum total_bytes).0,
        job',
      )
    ]

-- The part behind the look at the caches: a pending job.
unfoldable pub create_pending :
    Distribution → ℕ → State → Candidate → Component → Source → State × Outcome
unfolding create_job build_url component_priority job_for
create_pending dist max_retries state candidate component source =
    elim (build_url (some source.upstream) (some component.templates) candidate.version) [
      | refused error ↦ (state, failed (codes "failed to build URL"))
      | built url ↦
          let method =
            if is_nil source.retrieval_method then codes "release" else source.retrieval_method in
          let (db', job, error) =
            create_job state.db candidate.job_id candidate.now
              record (job_for dist component source candidate.version url method max_retries) {
                priority = component_priority component;
              } in
          elim error [
            | some e ↦ (state, failed (codes "failed to create job"))
            | none ↦ (
              record state {
                db = db';
                created = (source.id, candidate.version, job.id) ∷ state.created;
              },
              new_job job,
            )
          ]
    ]
