-- ===== src/Build/Types.antt =====
-- The rows of ldfd/db/models.go that builds work on. A Go string type with named constants is an
-- enumeration; `unset` is its empty string.
use ldf.Prelude.{ℕ, Text, Bool, List, Option}

pub data BuildJobStatus : Type 0 where
  unset pending resolving preparing compiling assembling packaging completed failed cancelled :
      BuildJobStatus

pub data StageName : Type 0 where
  resolve download prepare compile assemble package_stage : StageName
  other_stage : Text → StageName

pub data TargetArch : Type 0 where
  x86_64 aarch64 : TargetArch
  other_arch : Text → TargetArch

pub data ImageFormat : Type 0 where
  no_format raw qcow2 iso : ImageFormat

pub record BuildJob : Type 0 where
  pub id : Text
  pub distribution_id : Text
  pub owner_id : Text
  pub status : BuildJobStatus
  pub current_stage : Text
  pub target_arch : TargetArch
  pub image_format : ImageFormat
  pub progress_percent : ℕ
  pub workspace_path : Text
  pub artifact_path : Text
  pub artifact_checksum : Text
  pub artifact_size : ℕ
  pub error_message : Text
  pub error_stage : Text
  pub retry_count : ℕ
  pub max_retries : ℕ
  pub clear_cache : Bool
  pub config_snapshot : Text
  pub created_at : ℕ
  pub started_at : Option ℕ
  pub completed_at : Option ℕ

pub data StageStatus : Type 0 where
  stage_pending stage_running stage_completed stage_failed : StageStatus

pub record BuildStage : Type 0 where
  pub build_id : Text
  pub name : Text
  pub status : StageStatus
  pub progress_percent : ℕ
  pub started_at : Option ℕ
  pub completed_at : Option ℕ
  pub duration_ms : ℕ
  pub error_message : Text

pub data LogLevel : Type 0 where
  info error_level : LogLevel

pub record BuildLog : Type 0 where
  pub build_id : Text
  pub stage : Text
  pub level : LogLevel
  pub message : Text
  pub created_at : ℕ

pub data DistributionStatus : Type 0 where
  dist_pending dist_downloading dist_validating dist_building dist_ready dist_failed dist_deleted :
      DistributionStatus

pub record Distribution : Type 0 where
  pub id : Text
  pub owner_id : Text
  pub status : DistributionStatus
  pub error_message : Text
  pub updated_at : ℕ
  pub started_at : Option ℕ
  pub completed_at : Option ℕ

-- The tables. A row's number in its table is its place in the list.
pub record Store : Type 0 where
  pub jobs : List BuildJob
  pub stages : List BuildStage
  pub logs : List BuildLog
  pub distributions : List Distribution

pub data DbError : Type 0 where
  not_found duplicate_key missing_parent : DbError
