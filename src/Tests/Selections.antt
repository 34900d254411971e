-- ===== src/Tests/Selections.antt =====
-- A distribution of the kernel and an init system, as selected by ldfd/download/manager.go and by
-- ldfd/build/stages/resolve.go.
use ldf.Prelude.{
  contains, Text, codes, text_eq, false, if◌then◌else◌, [], ◌∷◌, Option, none, some, ◌≡◌, ◌↔◌, refl,
  inl,
}
use ldf.Build.Types.{TargetArch, x86_64, aarch64}
use ldf.Build.Arch.{HostSystem, detect_host_arch}
use ldf.Download.Jobs.{job_completed}
use ldf.Select.{DistributionConfig}
use ldf.Select.Manager
use ldf.Select.Stage
use ldf.Select.Stage.{Component, ResolvedComponent, Resolution, resolved, Registry, resolve_all}
use ldf.Select.Names.{required_components-agree}
use ldf.Select.Versions.{get_distribution_version_override-agree}
use ldf.Select.Resolved.{Resolves, resolve_all_iff}
use ldf.Tests.Downloads.{job_of}

abbrev small_config : DistributionConfig
small_config = record {
  core = record {
    kernel_version = codes "6.1";
    bootloader = [];
    bootloader_version = [];
    toolchain = codes "gcc";
  };
  system = record {
    init = codes "systemd";
    init_version = codes "255";
    filesystem_type = [];
    filesystem_version = [];
    filesystem_userspace = false;
    package_manager = [];
    package_manager_version = [];
  };
  security = record { system = codes "none"; system_version = []; system_userspace = false };
  runtime = record {
    container = [];
    container_version = [];
    virtualization = [];
    virtualization_version = [];
  };
  target = record { type_name = codes "server"; desktop = none };
  board_profile_id = codes "rpi4";
}

abbrev same_name : Text → Text → Option Text
same_name category name = some name

abbrev amd64_host : HostSystem
amd64_host = record {
  goarch = codes "amd64";
  look_path = λ name. none;
  path_exists = λ path. false;
  image_exists = λ runtime image. false;
}

abbrev any_board : Text → Option TargetArch
any_board id = some aarch64

required_components-agree_example :
    Manager.required_components same_name any_board (codes "amd64") small_config
    ≡ Stage.required_components same_name (detect_host_arch amd64_host) small_config aarch64
required_components-agree_example =
    required_components-agree same_name any_board amd64_host small_config aarch64 (inl (refl, refl))

-- Without a board profile, a build for another architecture asks for a compiler that was not
-- downloaded.
cross_build_differs :
    (Manager.required_components same_name (λ id. none) (codes "amd64") small_config
      ≡ codes "kernel" ∷ codes "systemd" ∷ codes "gcc-native" ∷ codes "build-essentials" ∷ [])
    × (Stage.required_components same_name (detect_host_arch amd64_host) small_config aarch64
        ≡ codes "kernel"
          ∷ codes "systemd"
          ∷ codes "gcc-cross-aarch64"
          ∷ codes "build-essentials"
          ∷ [])
unfolding Manager.required_components Stage.required_components detect_host_arch
cross_build_differs = (refl, refl)

get_distribution_version_override-agree_example :
    Manager.get_distribution_version_override small_config (codes "Systemd")
    ≡ Stage.get_distribution_version_override small_config (codes "Systemd")
unfolding text_eq contains Manager.names
get_distribution_version_override-agree_example =
    get_distribution_version_override-agree small_config (codes "Systemd") refl refl

-- A component with "kernel" in its name gets the kernel's version in the build, but not in the
-- download.
kernel_headers_differ :
    (Manager.get_distribution_version_override small_config (codes "kernel-headers") ≡ [])
    × (Stage.get_distribution_version_override small_config (codes "kernel-headers") ≡ codes "6.1")
unfolding Manager.get_distribution_version_override Stage.get_distribution_version_override
kernel_headers_differ = (refl, refl)

abbrev kernel : Component
kernel = record {
  id = codes "c";
  name = codes "kernel";
  default_version = [];
  supported_architectures = [];
}

abbrev one_download : Registry
one_download = record {
  by_name = λ name. if text_eq name (codes "kernel") then some kernel else none;
  jobs = record (job_of (codes "a")) { status = job_completed; artifact_path = codes "p" } ∷ [];
  stored = λ component version. none;
}

resolve_all_iff_example :
    (resolve_all one_download small_config x86_64 (codes "kernel" ∷ [])
      ≡ resolved
          (record { component = kernel; version = codes "6.1"; artifact_path = codes "p" } ∷ []))
    ↔ Resolves one_download small_config x86_64
        (codes "kernel" ∷ [])
        (record { component = kernel; version = codes "6.1"; artifact_path = codes "p" } ∷ [])
resolve_all_iff_example =
    resolve_all_iff one_download small_config x86_64 (codes "kernel" ∷ [])
      (record { component = kernel; version = codes "6.1"; artifact_path = codes "p" } ∷ [])

kernel_resolved :
    resolve_all one_download small_config x86_64 (codes "kernel" ∷ [])
    ≡ resolved
        (record { component = kernel; version = codes "6.1"; artifact_path = codes "p" } ∷ [])
unfolding resolve_all
kernel_resolved = refl
