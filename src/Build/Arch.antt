-- ===== src/Build/Arch.antt =====
-- The pre-flight checks of ldfd/build/arch.go, with the runtimes of ldfd/build/engine/container.go.
-- What the code asks of the machine it runs on is the record `HostSystem`.
pub mod Strategy
pub mod Images
use ldf.Prelude.{
  ℕ, zero, suc, Text, codes, text_eq, Bool, true, false, ◌&&◌, ◌||◌, ltb, ◌==◌, if◌then◌else◌, List,
  [], ◌∷◌, ◌++◌, Option, none, some, take, any,
}
use ldf.Build.Types.{TargetArch, x86_64, aarch64, other_arch}

pub data HostArch : Type 0 where
  host_x86_64 host_aarch64 : HostArch

-- The four named runtimes, and any other string of the configuration.
pub data RuntimeType : Type 0 where
  podman docker nerdctl chroot : RuntimeType
  other_runtime : Text → RuntimeType

pub record ToolchainInfo : Type 0 where
  pub cross_compile_prefix : Text
  pub make_arch : Text
  pub toolchain_pkg : Text

pub record QemuSupport : Type 0 where
  pub available : Bool
  pub binfmt_registered : Bool
  pub qemu_binary : Text

pub record BuildEnvironment : Type 0 where
  pub host_arch : HostArch
  pub target_arch : TargetArch
  pub is_native : Bool
  pub toolchain : ToolchainInfo
  pub container_image : Text
  pub use_qemu_emulation : Bool
  pub qemu_support : QemuSupport
  pub container_platform_flag : Text

-- `runtime.GOARCH`, `exec.LookPath`, `os.Stat` and `<runtime> image exists <image>`.
pub record HostSystem : Type 0 where
  pub goarch : Text
  pub look_path : Text → Option Text
  pub path_exists : Text → Bool
  pub image_exists : Text → Text → Bool

unfoldable pub is_container_runtime : RuntimeType → Bool
is_container_runtime podman = true
is_container_runtime docker = true
is_container_runtime nerdctl = true
is_container_runtime _ = false

unfoldable pub runtime_text : RuntimeType → Text
runtime_text podman = codes "podman"
runtime_text docker = codes "docker"
runtime_text nerdctl = codes "nerdctl"
runtime_text chroot = codes "chroot"
runtime_text (other_runtime name) = name

unfoldable pub arch_text : TargetArch → Text
arch_text x86_64 = codes "x86_64"
arch_text aarch64 = codes "aarch64"
arch_text (other_arch name) = name

unfoldable pub detect_host_arch : HostSystem → HostArch
unfolding text_eq
detect_host_arch sys =
    if text_eq sys.goarch (codes "amd64")
    then host_x86_64
    else if text_eq sys.goarch (codes "arm64")
    then host_aarch64
    else host_x86_64

unfoldable pub is_native_build : HostArch → TargetArch → Bool
is_native_build host_x86_64 x86_64 = true
is_native_build host_aarch64 aarch64 = true
is_native_build _ _ = false

-- `toolchainRegistry`, and `GetToolchain`: none is its error.
unfoldable pub get_toolchain : HostArch → TargetArch → Option ToolchainInfo
get_toolchain host_x86_64 x86_64 =
    some (record { cross_compile_prefix = []; make_arch = codes "x86"; toolchain_pkg = [] })
get_toolchain host_aarch64 aarch64 =
    some (record { cross_compile_prefix = []; make_arch = codes "arm64"; toolchain_pkg = [] })
get_toolchain host_x86_64 aarch64 = some (record {
  cross_compile_prefix = codes "aarch64-linux-gnu-";
  make_arch = codes "arm64";
  toolchain_pkg = codes "gcc-aarch64-linux-gnu";
})
get_toolchain host_aarch64 x86_64 = some (record {
  cross_compile_prefix = codes "x86_64-linux-gnu-";
  make_arch = codes "x86";
  toolchain_pkg = codes "gcc-x86-64-linux-gnu";
})
get_toolchain _ (other_arch name) = none

container_platforms : TargetArch → Option Text
container_platforms x86_64 = some (codes "linux/amd64")
container_platforms aarch64 = some (codes "linux/arm64")
container_platforms (other_arch name) = none

qemu_binary_names : TargetArch → Option Text
qemu_binary_names x86_64 = some (codes "qemu-x86_64-static")
qemu_binary_names aarch64 = some (codes "qemu-aarch64-static")
qemu_binary_names (other_arch name) = none

qemu_binfmt_names : TargetArch → Option Text
qemu_binfmt_names x86_64 = some (codes "qemu-x86_64")
qemu_binfmt_names aarch64 = some (codes "qemu-aarch64")
qemu_binfmt_names (other_arch name) = none

abbrev pub no_qemu : QemuSupport
no_qemu = record { available = false; binfmt_registered = false; qemu_binary = [] }

with_binary : HostSystem → Text → QemuSupport → QemuSupport
with_binary sys name result = elim (sys.look_path name) [
  | some path ↦ record result { available = true; qemu_binary = path }
  | none ↦ result
]

with_binfmt : HostSystem → Text → QemuSupport → QemuSupport
with_binfmt sys name result = record result {
  binfmt_registered = sys.path_exists (codes "/proc/sys/fs/binfmt_misc/" ++ name);
}

unfoldable pub detect_qemu_support : HostSystem → TargetArch → QemuSupport
unfolding qemu_binary_names qemu_binfmt_names with_binary with_binfmt
detect_qemu_support sys target = elim (qemu_binary_names target) [
  | none ↦ no_qemu
  | some binary ↦
      let result = with_binary sys binary no_qemu in
      elim (qemu_binfmt_names target) [ none ↦ result | some name ↦ with_binfmt sys name result ]
]

-- `strings.LastIndex` of one byte.
unfoldable pub last_index : ℕ → Text → Option ℕ
last_index c [] = none
last_index c (x ∷ s) = elim (last_index c s) [
  | some i ↦ some (suc i)
  | none ↦ if c == x then some 0 else none
]

-- The image name without its tag.
unfoldable pub base_image_of : Text → Text
unfolding last_index
base_image_of image = elim (last_index b':' image) [
  | some i ↦ if ltb 0 i then take i image else image
  | none ↦ image
]

unfoldable pub container_image_for_arch : HostSystem → Text → Text → TargetArch → Text
unfolding base_image_of arch_text
container_image_for_arch sys binary_name base_image target =
    let arch_image = base_image_of base_image ++ (codes ":" ++ arch_text target) in
    if sys.image_exists binary_name arch_image
    then arch_image
    else if any (λ c. c == b':') base_image
    then base_image
    else base_image ++ codes ":latest"

-- The environment of a build that needs the other architecture's tools.
add_emulation : HostSystem → RuntimeType → BuildEnvironment → BuildEnvironment
unfolding is_container_runtime detect_qemu_support container_platforms
add_emulation sys runtime env =
    let qemu = detect_qemu_support sys env.target_arch in
    if is_container_runtime runtime && qemu.binfmt_registered
    then elim (container_platforms env.target_arch) [
      | some platform ↦ record env {
        qemu_support = qemu;
        container_platform_flag = platform;
        use_qemu_emulation = true;
      }
      | none ↦ record env { qemu_support = qemu }
    ]
    else record env { qemu_support = qemu }

-- `ValidateBuildEnvironment`; none is its error.
unfoldable pub validate_build_environment :
    HostSystem → RuntimeType → Text → TargetArch → Option BuildEnvironment
unfolding detect_host_arch get_toolchain is_native_build is_container_runtime
    container_image_for_arch runtime_text add_emulation
validate_build_environment sys runtime base_image target =
    let host = detect_host_arch sys in
    elim (get_toolchain host target) [
      | none ↦ none
      | some tc ↦
          let env : BuildEnvironment = record {
            host_arch = host;
            target_arch = target;
            is_native = is_native_build host target;
            toolchain = tc;
            container_image =
                if is_container_runtime runtime
                then container_image_for_arch sys (runtime_text runtime) base_image target
                else base_image;
            use_qemu_emulation = false;
            qemu_support = no_qemu;
            container_platform_flag = [];
          } in
          some (if env.is_native then env else add_emulation sys runtime env)
    ]

-- `NewExecutor` accepts the four named runtimes.
unfoldable pub executor_known : RuntimeType → Bool
executor_known (other_runtime name) = false
executor_known _ = true
