-- ===== src/Build/Arch/Strategy.antt =====
-- Which strategy the pre-flight checks of ldfd/build/arch.go choose.
use ldf.Prelude.{Text, codes, true, false, some, [], ◌≡◌, ◌↔◌, arith}
use ldf.Build.Types.{TargetArch, x86_64, aarch64, other_arch}
use ldf.Build.Arch.{
  RuntimeType, BuildEnvironment, HostSystem, is_container_runtime, detect_host_arch,
  is_native_build, validate_build_environment,
}

-- Where the kernel registers the emulator of an architecture.
abbrev binfmt_path : TargetArch → Text
binfmt_path x86_64 = codes "/proc/sys/fs/binfmt_misc/qemu-x86_64"
binfmt_path aarch64 = codes "/proc/sys/fs/binfmt_misc/qemu-aarch64"
binfmt_path (other_arch name) = []

-- What a validated environment says about the build.
pub record IsConsistent (sys : HostSystem) (runtime : RuntimeType) (env : BuildEnvironment)
    : Type 0 where
  pub host_detected : env.host_arch ≡ detect_host_arch sys
  pub native_checked : env.is_native ≡ is_native_build env.host_arch env.target_arch
  pub native_iff_unprefixed : (env.is_native ≡ true) ↔ (env.toolchain.cross_compile_prefix ≡ [])
  pub emulation_iff : (env.use_qemu_emulation ≡ true) ↔ (
      (env.is_native ≡ false)
      × (is_container_runtime runtime ≡ true)
      × (sys.path_exists (binfmt_path env.target_arch) ≡ true))
  pub platform_iff : (env.use_qemu_emulation ≡ false) ↔ (env.container_platform_flag ≡ [])

-- For every machine, runtime, image and target, an environment that the checks return is that of the
-- detected host and the given target: it is native exactly where no cross compiler is named, uses
-- emulation exactly for a foreign target in a container with the emulator registered, and names a
-- platform exactly where it uses emulation.
pub validate-IsConsistent :
    (sys : HostSystem) (runtime : RuntimeType) (image : Text) (target : TargetArch)
    {env : BuildEnvironment}
    → validate_build_environment sys runtime image target ≡ some env
    → IsConsistent sys runtime env × (env.target_arch ≡ target)
unfolding validate_build_environment
validate-IsConsistent sys runtime image x86_64 h = ground arith
validate-IsConsistent sys runtime image aarch64 h = ground arith
validate-IsConsistent sys runtime image (other_arch name) h = ground arith
