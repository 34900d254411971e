-- ===== src/Select/Resolved.antt =====
-- What the loop of `Execute` of ldfd/build/stages/resolve.go hands to the later stages.
use ldf.Prelude.{
  Text, true, false, List, [], ◌∷◌, none, some, is_nil, ◌≡◌, refl, arith, subst, ◌⊎◌, ◌↔◌, inl, inr,
  Bool-cases, Option-cases, find_first, All, ◌≢◌,
}
use ldf.Build.Types.{TargetArch}
use ldf.Download.Jobs.{DownloadJob}
use ldf.Select.{DistributionConfig}
use ldf.Select.Stage.{
  Component, ResolvedComponent, ResolveError, component_not_found, no_version,
  no_completed_download, Resolution, resolved, fails, Registry, serves, artifact_of, found_path,
  get_component_version, is_component_compatible, before_rest, resolve_component, resolve_all,
}
use ldf.Select.Wanted.{IsDownloadOf, IsFirstDownload, Supports, IsVersionOf}
use ldf.Select.Wanted.Decides.{
  is_component_compatible_iff, get_component_version-IsVersionOf, IsVersionOf-unique,
  find_first-IsFirstDownload, IsFirstDownload-find_first, find_first-none_iff,
}

-- An artifact that may be used for a component in a version: that of the first completed download of
-- just that version for the component, or without one what the storage holds.
pub data Available (registry : Registry) (component : Component) (version : Text)
    : Text → Type 0 where
  downloaded :
      (job : DownloadJob)
      → IsFirstDownload component version registry.jobs job
      → Available registry component version job.artifact_path
  in_storage :
      (path : Text)
      → All (λ job. ¬ (IsDownloadOf component version job)) registry.jobs
      → registry.stored component version ≡ some path
      → path ≢ []
      → Available registry component version path

-- The components that a list of names is resolved to, in its order: each name is known, and stands with
-- its version and an artifact unless it does not support the target.
pub data Resolves (registry : Registry) (config : DistributionConfig) (target : TargetArch)
    : List Text → List ResolvedComponent → Type 0 where
  none_left : Resolves registry config target [] []
  incompatible :
      {names : List Text} {rest : List ResolvedComponent} (name : Text) (component : Component)
      → registry.by_name name ≡ some component
      → ¬ (Supports component target)
      → Resolves registry config target names rest
      → Resolves registry config target (name ∷ names) rest
  taken :
      {names : List Text} {rest : List ResolvedComponent} (name : Text) (component : Component)
      (version path : Text)
      → registry.by_name name ≡ some component
      → Supports component target
      → IsVersionOf config component version
      → version ≢ []
      → Available registry component version path
      → Resolves registry config target names rest
      → Resolves registry config target
          (name ∷ names)
          (record { component = component; version = version; artifact_path = path } ∷ rest)

filled : (s : Text) → is_nil s ≡ false → s ≢ []
filled [] h e = cc
filled (c ∷ s) h e = cc

is_nil-filled : (s : Text) → s ≢ [] → is_nil s ≡ false
is_nil-filled [] h = absurd (h refl)
is_nil-filled (c ∷ s) h = refl

artifact_of-Available :
    (registry : Registry) (component : Component) (version path : Text)
    → artifact_of registry component version ≡ some path
    → Available registry component version path
unfolding artifact_of found_path
artifact_of-Available registry component version path h =
    elim (Option-cases (find_first (serves component version) registry.jobs)) [
      | inr (job, e) ↦
          let same : some job.artifact_path ≡ some path = rw (e, artifact_of) at h in
          let q : job.artifact_path ≡ path = cc in
          subst (λ p. Available registry component version p) q
            (downloaded job (find_first-IsFirstDownload component version registry.jobs job e))
      | inl e ↦ elim (Option-cases (registry.stored component version)) [
        | inl s ↦ let no : none ≡ some path = rw (e, s, artifact_of) at h in cc
        | inr (key, s) ↦ elim (Bool-cases (is_nil key)) [
          | inl empty ↦ let no : none ≡ some path = rw (e, s, empty, artifact_of) at h in cc
          | inr full ↦
              let same : some key ≡ some path = rw (e, s, full, artifact_of) at h in
              let q : key ≡ path = cc in
              subst (λ p. Available registry component version p) q
                (in_storage key ((find_first-none_iff component version registry.jobs).0 e) s
                  (filled key full))
        ]
      ]
    ]

artifact_of_complete :
    (registry : Registry) (component : Component) (version path : Text)
    → Available registry component version path
    → artifact_of registry component version ≡ some path
unfolding artifact_of found_path
artifact_of_complete registry component version _ (downloaded job f) =
    rw (IsFirstDownload-find_first component version registry.jobs job f, artifact_of) refl
artifact_of_complete registry component version _ (in_storage path nowhere s full) =
    rw
      (
        (find_first-none_iff component version registry.jobs).1 nowhere,
        s,
        is_nil-filled path full,
        artifact_of,
      )
      refl

Resolution-cases :
    (r : Resolution)
    → ((rest : List ResolvedComponent) × (r ≡ resolved rest))
      ⊎ ((error : ResolveError) × (r ≡ fails error))
Resolution-cases (resolved rest) = inl (rest, refl)
Resolution-cases (fails error) = inr (error, refl)

module _ (registry : Registry) (config : DistributionConfig) (target : TargetArch) where
  unsupported_false :
      (component : Component)
      → ¬ (Supports component target)
      → is_component_compatible component target ≡ false
  unsupported_false component unsupported =
      elim (Bool-cases (is_component_compatible component target)) [
        | inl e ↦ absurd (unsupported ((is_component_compatible_iff component target).0 e))
        | inr e ↦ e
      ]

  resolve_all_complete :
      (names : List Text) (found : List ResolvedComponent)
      → Resolves registry config target names found
      → resolve_all registry config target names ≡ resolved found
  unfolding resolve_all resolve_component before_rest
  resolve_all_complete [] [] none_left = refl
  resolve_all_complete [] (_ ∷ found) x = elim x [ ]
  resolve_all_complete (_ ∷ names) found (incompatible name component e unsupported rest) =
      let no_support = unsupported_false component unsupported in
      rw (e, no_support, resolve_all, resolve_component) (resolve_all_complete names found rest)
  resolve_all_complete (_ ∷ names) (_ ∷ found)
        (taken name component version path e s v full a rest) =
      let same = IsVersionOf-unique config component version v in
      let full' : is_nil (get_component_version config component) ≡ false =
        rw same (is_nil-filled version full) in
      let a' : artifact_of registry component (get_component_version config component) ≡ some path =
        rw same (artifact_of_complete registry component version path a) in
      rw
        (
          e,
          (is_component_compatible_iff component target).1 s,
          full',
          a',
          resolve_all_complete names found rest,
          resolve_all,
          resolve_component,
          same,
        )
        refl

  taken_first :
      (names : List Text) (found : List ResolvedComponent) (name : Text) (component : Component)
      (path : Text)
      → registry.by_name name ≡ some component
      → is_component_compatible component target ≡ true
      → is_nil (get_component_version config component) ≡ false
      → Available registry component (get_component_version config component) path
      → ((rest : List ResolvedComponent)
          → resolve_all registry config target names ≡ resolved rest
          → Resolves registry config target names rest)
      → before_rest
          record {
            component = component;
            version = get_component_version config component;
            artifact_path = path;
          }
          (resolve_all registry config target names)
        ≡ resolved found
      → Resolves registry config target (name ∷ names) found
  unfolding before_rest
  taken_first names found name component path e supported full a ih h =
      elim (Resolution-cases (resolve_all registry config target names)) [
        | inr (error, r) ↦ let no : fails error ≡ resolved found = rw r at h in cc
        | inl (rest, r) ↦
            let q : (record {
              component = component;
              version = get_component_version config component;
              artifact_path = path;
            }
                  ∷ rest)
                ≡ found =
              ground (arith, rw r at h) in
            subst (λ all. Resolves registry config target (name ∷ names) all) q
              (taken name component (get_component_version config component) path e
                ((is_component_compatible_iff component target).0 supported)
                (get_component_version-IsVersionOf config component)
                (filled (get_component_version config component) full) a (ih rest r))
      ]

  resolve_component-Resolves :
      (names : List Text) (found : List ResolvedComponent) (name : Text) (component : Component)
      → registry.by_name name ≡ some component
      → ((rest : List ResolvedComponent)
          → resolve_all registry config target names ≡ resolved rest
          → Resolves registry config target names rest)
      → resolve_component registry config target name component
          (resolve_all registry config target names)
        ≡ resolved found
      → Resolves registry config target (name ∷ names) found
  unfolding resolve_component
  resolve_component-Resolves names found name component e ih h =
      elim (Bool-cases (is_component_compatible component target)) [
        | inr unsupported ↦
            incompatible name component e
              (λ s. let yes = (is_component_compatible_iff component target).1 s in cc)
              (ih found (rw (unsupported, resolve_component) at h))
        | inl supported ↦ elim (Bool-cases (is_nil (get_component_version config component))) [
          | inl empty ↦
              let no : fails (no_version name) ≡ resolved found =
                rw (supported, empty, resolve_component) at h in
              cc
          | inr full ↦
              elim (Option-cases
                (artifact_of registry component (get_component_version config component))) [
                  | inl a ↦
                      let no : fails
                            (no_completed_download name (get_component_version config component))
                          ≡ resolved found =
                        rw (supported, full, a, resolve_component) at h in
                      cc
                  | inr (path, a) ↦
                      taken_first names found name component path e supported full
                        (artifact_of-Available registry component _ path a) ih
                        (rw (supported, full, a, resolve_component) at h)
                ]
        ]
      ]

  resolve_all-Resolves :
      (names : List Text) (found : List ResolvedComponent)
      → resolve_all registry config target names ≡ resolved found
      → Resolves registry config target names found
  unfolding resolve_all resolve_component before_rest
  resolve_all-Resolves [] found h =
      let q : [] ≡ found = cc in subst (λ rest. Resolves registry config target [] rest) q none_left
  resolve_all-Resolves (name ∷ names) found h = elim (Option-cases (registry.by_name name)) [
    | inl e ↦
        let no : fails (component_not_found name) ≡ resolved found = rw (e, resolve_all) at h in cc
    | inr (component, e) ↦
        let step : resolve_component registry config target name component
              (resolve_all registry config target names)
            ≡ resolved found =
          rw (e, resolve_all) at h in
        resolve_component-Resolves names found name component e
          (λ rest r. resolve_all-Resolves names rest r) step
  ]

  -- The resolve stage hands on a list of components just when it is the list of the configuration's
  -- names, in their order: each name is known; a component that names architectures, but not the target,
  -- is left out; each other one is in the version that the first choice of the configuration that names
  -- it asks for, or in its own where none asks for one, which is not empty, and comes with the first
  -- completed download of that version for the component, or without any with what the storage holds.
  pub resolve_all_iff :
      (names : List Text) (found : List ResolvedComponent)
      → (resolve_all registry config target names ≡ resolved found)
        ↔ Resolves registry config target names found
  resolve_all_iff names found = (resolve_all-Resolves names found, resolve_all_complete names found)
