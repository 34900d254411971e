-- ===== src/Build/Repository/Tables.antt =====
-- The stage and log rows of ldfd/db/build_jobs.go, and the status of a distribution
-- (ldfd/db/distribution.go).
use ldf.Prelude.{
  ℕ, Text, text_eq, Bool, ◌&&◌, if◌then◌else◌, [], ◌∷◌, ◌++◌, map, Option, none, some, any,
}
use ldf.Build.Types.{
  StageStatus, stage_completed, stage_failed, BuildStage, LogLevel, DistributionStatus,
  dist_downloading, dist_validating, dist_building, dist_ready, dist_failed, Distribution, Store,
  DbError, not_found, missing_parent,
}
use ldf.Build.Repository.{has_id}

-- `CreateStage`. The job that the row names has to be there.
unfoldable pub create_stage : Store → BuildStage → Store × Option DbError
unfolding text_eq
create_stage db stage =
    if any (has_id stage.build_id) db.jobs
    then (record db { stages = db.stages ++ stage ∷ [] }, none)
    else (db, some missing_parent)

abbrev pub is_stage : Text → Text → BuildStage → Bool
is_stage build_id name stage = text_eq build_id stage.build_id && text_eq name stage.name

-- `UPDATE build_stages SET … WHERE build_id = ? AND name = ?`: every such row.
abbrev pub exec_stage_update : Store → Text → Text → (BuildStage → BuildStage) → Store
exec_stage_update db build_id name f = record db {
  stages = map (λ s. if is_stage build_id name s then f s else s) db.stages;
}

first_time : Option ℕ → ℕ → Option ℕ
first_time none now = some now
first_time (some t) now = some t

unfoldable pub update_stage_status : Store → ℕ → Text → Text → StageStatus → Store
unfolding text_eq first_time
update_stage_status db now build_id name status =
    exec_stage_update db build_id name
      (λ s. record s { status = status; started_at = first_time s.started_at now })

unfoldable pub mark_stage_completed : Store → ℕ → Text → Text → ℕ → Store
unfolding text_eq
mark_stage_completed db now build_id name duration_ms = exec_stage_update db build_id name (λ s.
    record s {
      status = stage_completed;
      completed_at = some now;
      duration_ms = duration_ms;
      progress_percent = 100;
    })

unfoldable pub mark_stage_failed : Store → ℕ → Text → Text → Text → Store
unfolding text_eq
mark_stage_failed db now build_id name message =
    exec_stage_update db build_id name
      (λ s. record s { status = stage_failed; completed_at = some now; error_message = message })

-- `AppendLog`.
unfoldable pub append_log : Store → ℕ → Text → Text → LogLevel → Text → Store × Option DbError
unfolding text_eq
append_log db now build_id stage level message =
    if any (has_id build_id) db.jobs
    then (
      record db {
        logs =
            db.logs
            ++ record {
              build_id = build_id;
              stage = stage;
              level = level;
              message = message;
              created_at = now;
            }
              ∷ [];
      },
      none,
    )
    else (db, some missing_parent)

with_status : DistributionStatus → ℕ → Text → Distribution → Distribution
with_status status now message d =
    let changed = record d { status = status; updated_at = now; error_message = message } in
    elim status [
      | dist_downloading ↦ record changed { started_at = some now }
      | dist_validating ↦ record changed { started_at = some now }
      | dist_building ↦ record changed { started_at = some now }
      | dist_ready ↦ record changed { completed_at = some now }
      | dist_failed ↦ record changed { completed_at = some now }
      | _ ↦ changed
    ]

abbrev pub is_distribution : Text → Distribution → Bool
is_distribution id d = text_eq id d.id

-- `DistributionRepository.UpdateStatus`.
unfoldable pub update_distribution_status :
    Store → ℕ → Text → DistributionStatus → Text → Store × Option DbError
unfolding text_eq with_status
update_distribution_status db now id status message =
    if any (is_distribution id) db.distributions
    then (
      record db {
        distributions =
            map (λ d. if is_distribution id d then with_status status now message d else d)
              db.distributions;
      },
      none,
    )
    else (db, some not_found)
