-- ===== src/Tests/Environments.antt =====
-- Build environments of ldfd/build/arch.go.
use ldf.Prelude.{codes, text_eq, true, false, [], none, some, ◌≡◌, refl}
use ldf.Build.Types.{aarch64}
use ldf.Build.Arch.{HostSystem, BuildEnvironment, host_x86_64, docker, validate_build_environment}
use ldf.Build.Arch.Strategy.{IsConsistent, validate-IsConsistent}

abbrev x86_host : HostSystem
x86_host = record {
  goarch = codes "amd64";
  look_path = λ binary. none;
  path_exists = λ path. true;
  image_exists = λ runtime image. text_eq image (codes "ldf-builder:aarch64");
}

abbrev arm_environment : BuildEnvironment
arm_environment = record {
  host_arch = host_x86_64;
  target_arch = aarch64;
  is_native = false;
  toolchain = record {
    cross_compile_prefix = codes "aarch64-linux-gnu-";
    make_arch = codes "arm64";
    toolchain_pkg = codes "gcc-aarch64-linux-gnu";
  };
  container_image = codes "ldf-builder:aarch64";
  use_qemu_emulation = true;
  qemu_support = record { available = false; binfmt_registered = true; qemu_binary = [] };
  container_platform_flag = codes "linux/arm64";
}

arm_environment_found :
    validate_build_environment x86_host docker (codes "ldf-builder:latest") aarch64
    ≡ some arm_environment
unfolding validate_build_environment
arm_environment_found = refl

validate-IsConsistent_example :
    IsConsistent x86_host docker arm_environment × (arm_environment.target_arch ≡ aarch64)
validate-IsConsistent_example =
    validate-IsConsistent x86_host docker (codes "ldf-builder:latest") aarch64 arm_environment_found
