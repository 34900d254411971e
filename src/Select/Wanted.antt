-- ===== src/Select/Wanted.antt =====
-- What the resolve stage of ldfd/build/stages/resolve.go looks for: the version of a component, the
-- architectures that it supports, and the download that has its artifact.
pub mod Decides
use ldf.Prelude.{
  Text, codes, text_eq, text_eq_iff, has_prefix, has_prefix-append, has_prefix_sound, contains,
  to_lower, Bool, true, false, not, ◌&&◌, ◌||◌, if◌then◌else◌, List, [], ◌∷◌, ◌++◌, length, drop,
  any, All, Any, Option, none, some, is_nil, find_first, ◌≡◌, ◌≢◌, ◌⊎◌, ◌↔◌, refl, subst, ap, inl,
  inr, arith, Bool-cases, Option-cases,
}
use ldf.Build.Types.{TargetArch, x86_64, aarch64, other_arch}
use ldf.Download.Jobs.{
  DownloadJob, DownloadJobStatus, job_unset, job_pending, job_verifying, job_downloading,
  job_completed, job_failed, job_cancelled,
}
use ldf.Select.{DesktopConfig, DistributionConfig}
use ldf.Select.Stage.{
  Component, names, desktop_override, get_distribution_version_override, get_component_version,
  arch_eq, is_component_compatible, contains_string, is_done, serves,
}

-- A completed download of the version, for the component as its first or as a later one.
pub record IsDownloadOf (component : Component) (version : Text) (job : DownloadJob) : Type 0 where
  pub belongs : (job.component_id ≡ component.id) ⊎ Any (λ id. id ≡ component.id) job.component_ids
  pub in_version : job.version ≡ version
  pub completed : job.status ≡ job_completed

-- The first of the jobs that is one.
pub data IsFirstDownload (component : Component) (version : Text)
    : List DownloadJob → DownloadJob → Type 0 where
  here :
      {jobs : List DownloadJob} (job : DownloadJob)
      → IsDownloadOf component version job
      → IsFirstDownload component version (job ∷ jobs) job
  there :
      {jobs : List DownloadJob} {job : DownloadJob} (other : DownloadJob)
      → ¬ (IsDownloadOf component version other)
      → IsFirstDownload component version jobs job
      → IsFirstDownload component version (other ∷ jobs) job

-- A component that names no architecture supports all.
abbrev pub Supports : Component → TargetArch → Type 0
Supports component target =
    (component.supported_architectures ≡ [])
    ⊎ Any (λ arch. arch ≡ target) component.supported_architectures

-- A text that is in another one.
abbrev pub IsIn : Text → Text → Type 0
IsIn part s = (before : Text) × (after : Text) × (s ≡ before ++ (part ++ after))

-- What a distribution chooses, and the version that it asks for, in the order in which they count.
abbrev chosen_desktop : Option DesktopConfig → List (Text × Text)
chosen_desktop none = []
chosen_desktop (some desktop) =
    (desktop.environment, desktop.environment_version)
    ∷ (desktop.display_server, desktop.display_server_version)
    ∷ []

abbrev pub choices : DistributionConfig → List (Text × Text)
choices config =
    (codes "kernel", config.core.kernel_version)
    ∷ (config.core.bootloader, config.core.bootloader_version)
    ∷ (config.system.init, config.system.init_version)
    ∷ (config.system.filesystem_type, config.system.filesystem_version)
    ∷ (config.system.package_manager, config.system.package_manager_version)
    ∷ (config.runtime.container, config.runtime.container_version)
    ∷ (config.runtime.virtualization, config.runtime.virtualization_version)
    ∷ (config.security.system, config.security.system_version)
    ∷ chosen_desktop config.target.desktop

-- A choice that is made names a component that has it in its name, whatever the case.
abbrev pub Names : Text → Text → Type 0
Names name choice = (choice ≢ []) × IsIn (to_lower choice) (to_lower name)

-- The version that the first choice naming a component asks for, empty where none names it.
pub data AsksFor (name : Text) : List (Text × Text) → Text → Type 0 where
  nothing : AsksFor name [] []
  asks :
      {rest : List (Text × Text)} (choice version : Text)
      → Names name choice
      → AsksFor name ((choice, version) ∷ rest) version
  passes :
      {rest : List (Text × Text)} {found : Text} (choice version : Text)
      → ¬ (Names name choice)
      → AsksFor name rest found
      → AsksFor name ((choice, version) ∷ rest) found

-- The version in which a component is used: the one asked for, or without one its own.
abbrev pub IsVersionOf : DistributionConfig → Component → Text → Type 0
IsVersionOf config component version =
    (asked : Text) × AsksFor component.name (choices config) asked
    × (((asked ≢ []) × (version ≡ asked)) ⊎ ((asked ≡ []) × (version ≡ component.default_version)))
