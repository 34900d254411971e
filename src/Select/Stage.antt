-- ===== src/Select/Stage.antt =====
-- The selection in `ResolveStage` of ldfd/build/stages/resolve.go: `getRequiredComponents`,
-- `getComponentVersion` and the loop of `Execute`. The queries, the download jobs and the listing of the
-- storage are arguments; the board profile, the kernel's configuration file and the check of the
-- toolchain are not modelled, nor is a context that ends in the loop.
use ldf.Prelude.{
  ℕ, Text, codes, text_eq, ltb, Bool, true, false, not, any, ◌&&◌, ◌||◌, if◌then◌else◌, List, [],
  ◌∷◌, ◌++◌, Option, none, some, is_nil, contains, to_lower, find_first,
}
use ldf.Build.Types.{TargetArch, x86_64, aarch64, other_arch}
use ldf.Build.Arch.{HostArch, is_native_build}
use ldf.Download.Jobs.{DownloadJob, DownloadJobStatus, job_completed}
use ldf.Select.{
  DesktopConfig, DistributionConfig, ToolchainType, gcc, llvm, resolve_toolchain, Query,
  find_component, find_kernel,
}

unfoldable pub desktop_components : Query → Text → Option DesktopConfig → List Text
unfolding text_eq find_component
desktop_components find target_type none = []
desktop_components find target_type (some desktop) =
    if text_eq target_type (codes "desktop") && not (is_nil desktop.environment)
    then find_component find (codes "desktop") desktop.environment
    else []

unfoldable pub is_aarch64 : TargetArch → Bool
is_aarch64 aarch64 = true
is_aarch64 _ = false

unfoldable pub toolchain_components : Query → HostArch → TargetArch → ToolchainType → List Text
unfolding is_native_build is_aarch64 find_component
toolchain_components find host target llvm = find_component find (codes "toolchain") (codes "llvm")
toolchain_components find host target gcc =
    if not (is_native_build host target) && is_aarch64 target
    then find_component find (codes "toolchain") (codes "gcc-cross-aarch64")
    else find_component find (codes "toolchain") (codes "gcc-native")

-- `getRequiredComponents`
unfoldable pub required_components : Query → HostArch → DistributionConfig → TargetArch → List Text
unfolding find_kernel find_component text_eq desktop_components toolchain_components
    resolve_toolchain
required_components find host config target =
    find_kernel find
    ++ ((if not (is_nil config.core.bootloader)
          then find_component find (codes "bootloader") config.core.bootloader
          else [])
        ++ ((if not (is_nil config.system.init)
              then find_component find (codes "init") config.system.init
              else [])
            ++ ((if not (is_nil config.system.filesystem_type) && config.system.filesystem_userspace
                  then find_component find (codes "filesystem") config.system.filesystem_type
                  else [])
                ++ ((if not (is_nil config.runtime.virtualization)
                      then find_component find (codes "runtime") config.runtime.virtualization
                      else [])
                    ++ ((if not (is_nil config.runtime.container)
                          then find_component find (codes "runtime") config.runtime.container
                          else [])
                        ++ ((if not (is_nil config.security.system)
                                && (not (text_eq config.security.system (codes "none"))
                                    && config.security.system_userspace)
                              then find_component find (codes "security") config.security.system
                              else [])
                            ++ (desktop_components find config.target.type_name
                                  config.target.desktop
                                ++ (toolchain_components find host target
                                      (resolve_toolchain config.core)
                                    ++ find_component find (codes "toolchain")
                                        (codes "build-essentials")))))))))

-- A configured name that is not empty and is in the component's name in lower case.
unfoldable pub names : Text → Text → Bool
unfolding contains to_lower
names lower_name configured = not (is_nil configured) && contains lower_name (to_lower configured)

unfoldable pub desktop_override : Text → Option DesktopConfig → Text
unfolding names
desktop_override lower_name none = []
desktop_override lower_name (some desktop) =
    if names lower_name desktop.environment
    then desktop.environment_version
    else if names lower_name desktop.display_server
    then desktop.display_server_version
    else []

-- `getDistributionVersionOverride`
unfoldable pub get_distribution_version_override : DistributionConfig → Text → Text
unfolding contains to_lower names desktop_override
get_distribution_version_override config component_name =
    let lower_name = to_lower component_name in
    if contains lower_name (codes "kernel")
    then config.core.kernel_version
    else if names lower_name config.core.bootloader
    then config.core.bootloader_version
    else if names lower_name config.system.init
    then config.system.init_version
    else if names lower_name config.system.filesystem_type
    then config.system.filesystem_version
    else if names lower_name config.system.package_manager
    then config.system.package_manager_version
    else if names lower_name config.runtime.container
    then config.runtime.container_version
    else if names lower_name config.runtime.virtualization
    then config.runtime.virtualization_version
    else if names lower_name config.security.system
    then config.security.system_version
    else desktop_override lower_name config.target.desktop

pub record Component : Type 0 where
  pub id : Text
  pub name : Text
  pub default_version : Text
  pub supported_architectures : List TargetArch

-- `getComponentVersion`
unfoldable pub get_component_version : DistributionConfig → Component → Text
unfolding get_distribution_version_override
get_component_version config component =
    let override = get_distribution_version_override config component.name in
    if not (is_nil override) then override else component.default_version

unfoldable pub arch_eq : TargetArch → TargetArch → Bool
unfolding text_eq
arch_eq x86_64 x86_64 = true
arch_eq aarch64 aarch64 = true
arch_eq (other_arch s) (other_arch t) = text_eq s t
arch_eq _ _ = false

-- `isComponentCompatible`
unfoldable pub is_component_compatible : Component → TargetArch → Bool
unfolding arch_eq
is_component_compatible c arch =
    is_nil c.supported_architectures || any (λ a. arch_eq a arch) c.supported_architectures

-- `containsString`
unfoldable pub contains_string : List Text → Text → Bool
unfolding text_eq
contains_string slice s = any (λ item. text_eq item s) slice

unfoldable pub is_done : DownloadJobStatus → Bool
is_done job_completed = true
is_done _ = false

-- A job for the component, as its first or a later one, that is completed with the version.
unfoldable pub serves : Component → Text → DownloadJob → Bool
unfolding text_eq contains_string is_done
serves component version job =
    (text_eq job.component_id component.id || contains_string job.component_ids component.id)
    && (text_eq job.version version && is_done job.status)

pub record StorageObject : Type 0 where
  pub key : Text
  pub size : ℕ

non_empty_key : Option StorageObject → Option Text
non_empty_key none = none
non_empty_key (some object) = some object.key

-- The loop over the two subdirectories; a listing that fails is passed over like an empty one.
first_key : (Text → List StorageObject) → Text → Text → List Text → Option Text
unfolding non_empty_key
first_key list_objects before after [] = none
first_key list_objects before after (subdir ∷ subdirs) =
    let rest = first_key list_objects before after subdirs in
    elim (non_empty_key
      (find_first (λ o. ltb 0 o.size) (list_objects (before ++ (subdir ++ after))))) [
        | some key ↦ some key
        | none ↦ rest
      ]

-- `findArtifactInStorage`, for the owner, the distribution and the effective source of a component.
unfoldable pub find_artifact_in_storage :
    (Text → List StorageObject) → Text → Text → Option Text → Text → Option Text
unfolding first_key
find_artifact_in_storage list_objects owner_id distribution_id none version = none
find_artifact_in_storage list_objects owner_id distribution_id (some source_id) version =
    first_key list_objects
      (codes "distribution/" ++ (owner_id ++ (codes "/" ++ (distribution_id ++ codes "/"))))
      (codes "/" ++ (source_id ++ (codes "/" ++ (version ++ codes "/"))))
      (codes "components" ∷ codes "sources" ∷ [])

pub record ResolvedComponent : Type 0 where
  pub component : Component
  pub version : Text
  pub artifact_path : Text

pub data ResolveError : Type 0 where
  component_not_found : Text → ResolveError
  no_version : Text → ResolveError
  no_completed_download : Text → Text → ResolveError

pub data Resolution : Type 0 where
  resolved : List ResolvedComponent → Resolution
  fails : ResolveError → Resolution

-- What the stage reads: the components by their names, the distribution's download jobs, and what the
-- storage holds for a component and a version.
pub record Registry : Type 0 where
  pub by_name : Text → Option Component
  pub jobs : List DownloadJob
  pub stored : Component → Text → Option Text

unfoldable pub found_path : Option DownloadJob → Option Text → Option Text
found_path (some job) stored = some job.artifact_path
found_path none none = none
found_path none (some path) = if is_nil path then none else some path

unfoldable pub artifact_of : Registry → Component → Text → Option Text
unfolding found_path serves
artifact_of registry component version =
    found_path (find_first (serves component version) registry.jobs)
      (registry.stored component version)

-- Appends a component to those of the rest.
unfoldable pub before_rest : ResolvedComponent → Resolution → Resolution
before_rest r (resolved rest) = resolved (r ∷ rest)
before_rest r (fails e) = fails e

unfoldable pub resolve_component :
    Registry → DistributionConfig → TargetArch → Text → Component → Resolution → Resolution
unfolding is_component_compatible get_component_version artifact_of before_rest
resolve_component registry config target name component rest =
    let version = get_component_version config component in
    if not (is_component_compatible component target)
    then rest
    else if is_nil version
    then fails (no_version name)
    else elim (artifact_of registry component version) [
      | none ↦ fails (no_completed_download name version)
      | some path ↦
          before_rest record { component = component; version = version; artifact_path = path } rest
    ]

-- The loop of `Execute` over the names.
unfoldable pub resolve_all : Registry → DistributionConfig → TargetArch → List Text → Resolution
unfolding resolve_component
resolve_all registry config target [] = resolved []
resolve_all registry config target (name ∷ rest) =
    let others = resolve_all registry config target rest in
    elim (registry.by_name name) [
      | none ↦ fails (component_not_found name)
      | some component ↦ resolve_component registry config target name component others
    ]
