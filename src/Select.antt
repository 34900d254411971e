-- ===== src/Select.antt =====
-- The choice of a distribution's components and of their versions: the configuration of
-- ldfd/db/models.go, which ldfd/download/manager.go and ldfd/build/stages/resolve.go read in the same way.
pub mod Manager
pub mod Stage
pub mod Names
pub mod Versions
pub mod Wanted
pub mod Resolved
use ldf.Prelude.{
  ℕ, Text, codes, text_eq, Bool, true, false, not, ◌&&◌, ◌||◌, if◌then◌else◌, List, [], ◌∷◌, ◌++◌,
  Option, none, some, is_nil,
}

-- The kernel's version and the bootloader of `CoreConfig`, with the toolchain.
pub record CoreConfig : Type 0 where
  pub kernel_version : Text
  pub bootloader : Text
  pub bootloader_version : Text
  pub toolchain : Text

pub record SystemConfig : Type 0 where
  pub init : Text
  pub init_version : Text
  pub filesystem_type : Text
  pub filesystem_version : Text
  pub filesystem_userspace : Bool
  pub package_manager : Text
  pub package_manager_version : Text

pub record SecurityConfig : Type 0 where
  pub system : Text
  pub system_version : Text
  pub system_userspace : Bool

pub record RuntimeConfig : Type 0 where
  pub container : Text
  pub container_version : Text
  pub virtualization : Text
  pub virtualization_version : Text

pub record DesktopConfig : Type 0 where
  pub environment : Text
  pub environment_version : Text
  pub display_server : Text
  pub display_server_version : Text

pub record TargetConfig : Type 0 where
  pub type_name : Text
  pub desktop : Option DesktopConfig

pub record DistributionConfig : Type 0 where
  pub core : CoreConfig
  pub system : SystemConfig
  pub security : SecurityConfig
  pub runtime : RuntimeConfig
  pub target : TargetConfig
  pub board_profile_id : Text

pub data ToolchainType : Type 0 where
  gcc llvm : ToolchainType

unfoldable pub resolve_toolchain : CoreConfig → ToolchainType
unfolding text_eq
resolve_toolchain core = if text_eq core.toolchain (codes "llvm") then llvm else gcc

-- The query `GetByCategoryAndNameContains`, as the name of the component that it finds.
abbrev pub Query : Type 0
Query = Text → Text → Option Text

found_name : Option Text → List Text
found_name none = []
found_name (some name) = name ∷ []

-- `findComponent`: what it appends to the list.
unfoldable pub find_component : Query → Text → Text → List Text
unfolding found_name
find_component find category config_value =
    if is_nil config_value then [] else found_name (find category config_value)

unfoldable pub find_kernel : Query → List Text
find_kernel find = elim (find (codes "core") (codes "kernel")) [
  | none ↦ codes "kernel" ∷ []
  | some name ↦ name ∷ []
]
