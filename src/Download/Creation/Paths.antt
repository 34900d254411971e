-- ===== src/Download/Creation/Paths.antt =====
-- That the two functions that build the path of an artifact, in ldfd/download/manager.go and in
-- ldfd/download/downloader.go, agree.
use ldf.Prelude.{ℕ, Text, codes, if◌then◌else◌, [], ◌∷◌, is_nil, ◌≡◌, refl}
use ldf.Download.Downloader.{build_artifact_path}
use ldf.Download.Creation.{Distribution, Component, Source, build_dist_artifact_path, job_for}

-- The path to which the manager copies an artifact is the one to which a worker uploads it, for a copied
-- job with the source's own method and for a pending job, where no method means a release.
pub build_dist_artifact_path-build_artifact_path :
    (dist : Distribution) (source : Source) (component : Component) (version url : Text)
    (max_retries : ℕ)
    → (build_dist_artifact_path dist source component version url
        ≡ build_artifact_path
            (job_for dist component source version url source.retrieval_method max_retries))
      × (build_dist_artifact_path dist source component version url
          ≡ build_artifact_path (
              job_for dist component source version url
                (if is_nil source.retrieval_method
                  then codes "release"
                  else source.retrieval_method)
                max_retries))
unfolding build_dist_artifact_path build_artifact_path job_for
build_dist_artifact_path-build_artifact_path dist source component version url max_retries =
    (refl, pending source.retrieval_method)
  where
    pending :
        (method : Text)
        → build_dist_artifact_path dist
            (record source { retrieval_method = method })
            component
            version
            url
          ≡ build_artifact_path (
              job_for dist component source version url
                (if is_nil method then codes "release" else method)
                max_retries)
    pending [] = refl
    pending (c ∷ method) = refl
