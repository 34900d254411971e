-- ===== src/Select/Names.antt =====
-- That ldfd/download/manager.go downloads the components that ldfd/build/stages/resolve.go asks for.
use ldf.Prelude.{
  Text, codes, text_eq, true, false, Option, none, some, is_nil, ◌≡◌, refl, arith, ◌⊎◌, inl, inr,
  Bool-cases, text_eq_iff,
}
use ldf.Build.Types.{TargetArch, x86_64, aarch64, other_arch}
use ldf.Build.Arch.{HostSystem, detect_host_arch, is_native_build}
use ldf.Select.{
  DesktopConfig, DistributionConfig, ToolchainType, gcc, llvm, Query, resolve_toolchain,
}
use ldf.Select.Manager
use ldf.Select.Stage

desktop_components-same :
    (find : Query) (type_name : Text) (desktop : Option DesktopConfig)
    → Manager.desktop_components find type_name desktop
      ≡ Stage.desktop_components find type_name desktop
unfolding Manager.desktop_components Stage.desktop_components
desktop_components-same find type_name none = refl
desktop_components-same find type_name (some desktop) = refl

native_aarch64 :
    (sys : HostSystem)
    → is_native_build (detect_host_arch sys) aarch64 ≡ text_eq sys.goarch (codes "arm64")
unfolding detect_host_arch is_native_build text_eq
native_aarch64 sys = elim (Bool-cases (text_eq sys.goarch (codes "amd64"))) [
  | inl amd ↦ rw ((text_eq_iff sys.goarch (codes "amd64")).0 amd) refl
  | inr other ↦ elim (Bool-cases (text_eq sys.goarch (codes "arm64"))) [
    | inl arm ↦ rw (other, arm, detect_host_arch) refl
    | inr neither ↦ rw (other, neither, detect_host_arch) refl
  ]
]

toolchain_components-same :
    (find : Query) (sys : HostSystem) (target : TargetArch) (toolchain : ToolchainType)
    → Manager.toolchain_components find sys.goarch (some target) toolchain
      ≡ Stage.toolchain_components find (detect_host_arch sys) target toolchain
unfolding Manager.toolchain_components Stage.toolchain_components detect_host_arch is_native_build
toolchain_components-same find sys target llvm = refl
toolchain_components-same find sys x86_64 gcc = ground arith
toolchain_components-same find sys (other_arch name) gcc = ground arith
toolchain_components-same find sys aarch64 gcc = rw (native_aarch64 sys) refl

toolchain_components-native :
    (find : Query) (sys : HostSystem) (target : TargetArch) (toolchain : ToolchainType)
    → is_native_build (detect_host_arch sys) target ≡ true
    → Manager.toolchain_components find sys.goarch none toolchain
      ≡ Stage.toolchain_components find (detect_host_arch sys) target toolchain
unfolding Manager.toolchain_components Stage.toolchain_components
toolchain_components-native find sys target llvm h = refl
toolchain_components-native find sys target gcc h = rw h refl

-- The manager downloads exactly the components that the resolve stage asks for, in the same order, if
-- the build's target is that of the distribution's board profile, or if the distribution names no board
-- profile and the build is native.
pub required_components-agree :
    (find : Query) (board_arch : Text → Option TargetArch) (sys : HostSystem)
    (config : DistributionConfig) (target : TargetArch)
    → ((is_nil config.board_profile_id ≡ false)
        × (board_arch config.board_profile_id ≡ some target))
      ⊎ ((is_nil config.board_profile_id ≡ true)
          × (is_native_build (detect_host_arch sys) target ≡ true))
    → Manager.required_components find board_arch sys.goarch config
      ≡ Stage.required_components find (detect_host_arch sys) config target
unfolding Manager.required_components Stage.required_components Manager.target_arch
required_components-agree find board_arch sys config target (inl (named, board)) =
    rw
      (
        named,
        board,
        desktop_components-same find config.target.type_name config.target.desktop,
        toolchain_components-same find sys target (resolve_toolchain config.core),
      )
      refl
required_components-agree find board_arch sys config target (inr (unnamed, native)) =
    rw
      (
        unnamed,
        desktop_components-same find config.target.type_name config.target.desktop,
        toolchain_components-native find sys target (resolve_toolchain config.core) native,
      )
      refl
