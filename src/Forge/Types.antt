-- ===== src/Forge/Types.antt =====
-- What a provider discovers (ldfd/forge/forge.go), with the version types of ldfd/db/models.go.
use ldf.Prelude.{ℕ, Text, Bool, Option}

pub data VersionType : Type 0 where
  mainline stable longterm linux_next : VersionType

pub record DiscoveredVersion : Type 0 where
  pub version : Text
  pub version_type : VersionType
  pub release_date : Option ℕ
  pub download_url : Text
  pub is_stable : Bool
  pub is_prerelease : Bool
