-- ===== src/Select/Manager.antt =====
-- The selection in ldfd/download/manager.go: `getRequiredComponents`, `getComponentVersion` and what they
-- call. The queries on the components, the board profiles and the discovered versions are arguments.
use ldf.Prelude.{
  Text, codes, text_eq, leb, Bool, true, false, not, ◌&&◌, ◌||◌, if◌then◌else◌, List, [], ◌++◌,
  Option, none, some, is_nil, contains, to_lower, length,
}
use ldf.Build.Types.{TargetArch, x86_64, aarch64, other_arch}
use ldf.Select.{
  DesktopConfig, DistributionConfig, ToolchainType, gcc, llvm, resolve_toolchain, Query,
  find_component, find_kernel,
}

unfoldable pub desktop_components : Query → Text → Option DesktopConfig → List Text
unfolding text_eq find_component
desktop_components find target_type none = []
desktop_components find target_type (some desktop) =
    if text_eq target_type (codes "desktop") && not (is_nil desktop.environment)
    then find_component find (codes "desktop") desktop.environment
    else []

-- The target of the board profile, if there is one.
unfoldable pub target_arch : (Text → Option TargetArch) → DistributionConfig → Option TargetArch
target_arch board_arch config =
    if not (is_nil config.board_profile_id) then board_arch config.board_profile_id else none

unfoldable pub is_native : Text → Option TargetArch → Bool
unfolding text_eq
is_native goarch none = true
is_native goarch (some x86_64) = text_eq goarch (codes "amd64")
is_native goarch (some aarch64) = text_eq goarch (codes "arm64")
is_native goarch (some (other_arch name)) = false

unfoldable pub is_aarch64 : Option TargetArch → Bool
is_aarch64 (some aarch64) = true
is_aarch64 _ = false

unfoldable pub toolchain_components : Query → Text → Option TargetArch → ToolchainType → List Text
unfolding is_native is_aarch64 find_component
toolchain_components find goarch target llvm =
    find_component find (codes "toolchain") (codes "llvm")
toolchain_components find goarch target gcc =
    if not (is_native goarch target) && is_aarch64 target
    then find_component find (codes "toolchain") (codes "gcc-cross-aarch64")
    else find_component find (codes "toolchain") (codes "gcc-native")

-- `getRequiredComponents`: the query, the boards' architectures and the host's `GOARCH` are arguments.
unfoldable pub required_components :
    Query → (Text → Option TargetArch) → Text → DistributionConfig → List Text
unfolding find_kernel find_component text_eq desktop_components target_arch toolchain_components
    resolve_toolchain
required_components find board_arch goarch config =
    find_kernel find
    ++ ((if not (is_nil config.core.bootloader)
          then find_component find (codes "bootloader") config.core.bootloader
          else [])
        ++ ((if not (is_nil config.system.init)
              then find_component find (codes "init") config.system.init
              else [])
            ++ ((if not (is_nil config.system.filesystem_type) && config.system.filesystem_userspace
                  then find_component find (codes "filesystem") config.system.filesystem_type
                  else [])
                ++ ((if not (is_nil config.runtime.virtualization)
                      then find_component find (codes "runtime") config.runtime.virtualization
                      else [])
                    ++ ((if not (is_nil config.runtime.container)
                          then find_component find (codes "runtime") config.runtime.container
                          else [])
                        ++ ((if not (is_nil config.security.system)
                                && (not (text_eq config.security.system (codes "none"))
                                    && config.security.system_userspace)
                              then find_component find (codes "security") config.security.system
                              else [])
                            ++ (desktop_components find config.target.type_name
                                  config.target.desktop
                                ++ (toolchain_components find goarch (target_arch board_arch config)
                                      (resolve_toolchain config.core)
                                    ++ find_component find (codes "toolchain")
                                        (codes "build-essentials")))))))))

-- `containsIgnoreCase`
unfoldable pub contains_ignore_case : Text → Text → Bool
unfolding text_eq contains to_lower
contains_ignore_case s substr =
    leb (length substr) (length s)
    && (text_eq s substr || (leb 1 (length substr) && contains (to_lower s) (to_lower substr)))

-- A configured name that is not empty and is in the component's name.
unfoldable pub names : Text → Text → Bool
unfolding contains_ignore_case
names component_name configured =
    not (is_nil configured) && contains_ignore_case component_name configured

unfoldable pub desktop_override : Text → Option DesktopConfig → Text
unfolding names
desktop_override component_name none = []
desktop_override component_name (some desktop) =
    if names component_name desktop.environment
    then desktop.environment_version
    else if names component_name desktop.display_server
    then desktop.display_server_version
    else []

-- `getDistributionVersionOverride`
unfoldable pub get_distribution_version_override : DistributionConfig → Text → Text
unfolding text_eq names desktop_override
get_distribution_version_override config component_name =
    if text_eq component_name (codes "kernel")
    then config.core.kernel_version
    else if names component_name config.core.bootloader
    then config.core.bootloader_version
    else if names component_name config.system.init
    then config.system.init_version
    else if names component_name config.system.filesystem_type
    then config.system.filesystem_version
    else if names component_name config.system.package_manager
    then config.system.package_manager_version
    else if names component_name config.security.system
    then config.security.system_version
    else if names component_name config.runtime.container
    then config.runtime.container_version
    else if names component_name config.runtime.virtualization
    then config.runtime.virtualization_version
    else desktop_override component_name config.target.desktop

-- The default of a component: its version, or the rule for it.
pub data VersionRule : Type 0 where
  pinned latest_stable latest_lts other_rule : VersionRule

pub record Defaults : Type 0 where
  pub component_id : Text
  pub default_version : Text
  pub default_version_rule : VersionRule

version_or_empty : Option Text → Text
version_or_empty none = []
version_or_empty (some version) = version

-- `resolveComponentDefaultVersion`, with the newest stable and the newest longterm version of a
-- component.
unfoldable pub resolve_component_default_version :
    (Text → Option Text) → (Text → Option Text) → Option Defaults → Text
unfolding version_or_empty
resolve_component_default_version stable longterm none = []
resolve_component_default_version stable longterm (some c) = elim c.default_version_rule [
  | pinned ↦ c.default_version
  | latest_stable ↦ version_or_empty (stable c.component_id)
  | latest_lts ↦ version_or_empty (longterm c.component_id)
  | other_rule ↦ version_or_empty (stable c.component_id)
]

-- `getComponentVersion`
unfoldable pub get_component_version :
    (Text → Option Text)
    → (Text → Option Text)
    → (Text → Option Defaults)
    → DistributionConfig
    → Text
    → Text
unfolding get_distribution_version_override resolve_component_default_version
get_component_version stable longterm by_name config component_name =
    let override = get_distribution_version_override config component_name in
    if not (is_nil override)
    then override
    else resolve_component_default_version stable longterm (by_name component_name)
