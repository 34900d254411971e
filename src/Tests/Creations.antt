-- ===== src/Tests/Creations.antt =====
-- The jobs of a distribution of ldfd/download/manager.go, and the cache of ldfd/download/cache.go.
use ldf.Prelude.{ℕ, ◌*◌, Text, codes, true, List, [], ◌∷◌, none, some, length, ◌≡◌, ◌⊎◌, refl}
use ldf.Download.Jobs.{Tables}
use ldf.Download.Downloader.{build_artifact_path}
use ldf.Download.Cache.{CacheConfig, CacheEntry, evict}
use ldf.Download.Cache.Eviction.{Ends, evict-Ends}
use ldf.Download.Creation.{
  Distribution, Component, Source, Candidate, build_dist_artifact_path, job_for,
}
use ldf.Download.Creation.Reuse.{create_jobs_for_distribution}
use ldf.Download.Creation.Once.{DownloadsUnique}
use ldf.Download.Creation.Single.{create_jobs_for_distribution-DownloadsUnique}
use ldf.Download.Creation.Paths.{build_dist_artifact_path-build_artifact_path}

abbrev entry_of : Text → ℕ → ℕ → CacheEntry
entry_of id size_bytes last_used_at = record {
  id = id;
  source_id = id;
  version = codes "1";
  checksum = [];
  cache_path = id;
  size_bytes = size_bytes;
  content_type = [];
  resolved_url = [];
  last_used_at = last_used_at;
  use_count = 1;
}

abbrev one_gb : CacheConfig
one_gb = record { enabled = true; max_size_gb = 1 }

abbrev three_entries : List CacheEntry
three_entries =
    entry_of (codes "a") 900000000 3
    ∷ entry_of (codes "b") 900000000 1
    ∷ entry_of (codes "c") 100000000 2
    ∷ []

oldest_evicted :
    evict one_gb three_entries
    ≡ some
        (entry_of (codes "a") 900000000 3 ∷ entry_of (codes "c") 100000000 2 ∷ [], codes "b" ∷ [])
unfolding evict
oldest_evicted = refl

evict-Ends_example :
    ((one_gb.max_size_gb ≡ 0) × (evict one_gb three_entries ≡ some (three_entries, [])))
    ⊎ Ends (one_gb.max_size_gb * 1073741824) (evict one_gb three_entries)
evict-Ends_example = evict-Ends one_gb three_entries

abbrev server : Distribution
server = record { id = codes "d"; owner_id = codes "o" }

abbrev kernel_org : Source
kernel_org = record {
  id = codes "s";
  name = codes "kernel.org";
  is_system = true;
  retrieval_method = [];
  upstream = record {
    url = codes "https://h";
    url_template = codes "{base_url}/linux-{version}.tar.xz";
  };
}

abbrev core_component : Text → Component
core_component id = record {
  id = id;
  category = codes "core";
  templates = record { default_url_template = []; github_normalized_template = [] };
}

abbrev candidate_of : Text → Text → Candidate
candidate_of component_id job_id = record {
  component = some (core_component component_id);
  source = some kernel_org;
  version = codes "6.1";
  job_id = job_id;
  entry_id = job_id;
  now = 5;
}

abbrev no_jobs : Tables
no_jobs = record {
  jobs = [];
  distribution_ids = codes "d" ∷ [];
  component_ids = codes "c1" ∷ codes "c2" ∷ [];
}

abbrev two_candidates : List Candidate
two_candidates =
    candidate_of (codes "c1") (codes "j1") ∷ candidate_of (codes "c2") (codes "j2") ∷ []

one_job_for_two_components :
    length (create_jobs_for_distribution server 3 none no_jobs [] two_candidates).0.db.jobs ≡ 1
unfolding create_jobs_for_distribution
one_job_for_two_components = refl

create_jobs_for_distribution-DownloadsUnique_example :
    DownloadsUnique (create_jobs_for_distribution server 3 none no_jobs [] two_candidates).0.db.jobs
unfolding DownloadsUnique
create_jobs_for_distribution-DownloadsUnique_example =
    create_jobs_for_distribution-DownloadsUnique server 3 none no_jobs [] two_candidates tt

build_dist_artifact_path-build_artifact_path_example :
    (build_dist_artifact_path server kernel_org
        (core_component (codes "c1"))
        (codes "6.1")
        (codes "https://h/l.tar")
      ≡ build_artifact_path (
          job_for server
            (core_component (codes "c1"))
            kernel_org
            (codes "6.1")
            (codes "https://h/l.tar")
            []
            3))
    × (build_dist_artifact_path server kernel_org
          (core_component (codes "c1"))
          (codes "6.1")
          (codes "https://h/l.tar")
        ≡ build_artifact_path (
            job_for server
              (core_component (codes "c1"))
              kernel_org
              (codes "6.1")
              (codes "https://h/l.tar")
              (codes "release")
              3))
build_dist_artifact_path-build_artifact_path_example =
    build_dist_artifact_path-build_artifact_path server kernel_org (core_component (codes "c1"))
      (codes "6.1") (codes "https://h/l.tar") 3
