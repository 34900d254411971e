-- ===== src/Download/Downloader.antt =====
-- `Downloader` of ldfd/download/downloader.go: what a transfer writes into the table of jobs. What the
-- network, the file system and the storage answer is an argument.
pub mod Names
use ldf.Prelude.{
  ℕ, Text, codes, text_eq, Bool, true, false, ◌||◌, if◌then◌else◌, List, [], ◌∷◌, ◌++◌, Option,
  none, some, is_nil, path_base, path_ext,
}
use ldf.Download.Jobs.{
  DownloadJob, Tables, TableError, job_not_found, duplicate_job, missing_parent_row,
  mark_job_started, update_progress, mark_job_completed,
}

-- `buildArtifactPath`
unfoldable pub build_artifact_path : DownloadJob → Text
unfolding path_base text_eq
build_artifact_path job =
    let base = path_base job.resolved_url in
    let filename =
      if is_nil base || (text_eq base (codes ".") || text_eq base (codes "/"))
      then job.source_id ++ (codes "-" ++ (job.version ++ codes ".tar.gz"))
      else base in
    let subdir =
      if text_eq job.retrieval_method (codes "git") then codes "sources" else codes "components" in
    let path_id = if is_nil job.source_id then job.component_id else job.source_id in
    codes "distribution/"
    ++ (job.owner_id
        ++ (codes "/"
            ++ (job.distribution_id
                ++ (codes "/"
                    ++ (subdir
                        ++ (codes "/"
                            ++ (path_id
                                ++ (codes "/" ++ (job.version ++ (codes "/" ++ filename))))))))))

unfoldable pub content_type_of : Text → Text
unfolding text_eq
content_type_of ext =
    if text_eq ext (codes ".tar.gz") || text_eq ext (codes ".tgz")
    then codes "application/gzip"
    else if text_eq ext (codes ".tar.xz")
    then codes "application/x-xz"
    else if text_eq ext (codes ".tar.bz2")
    then codes "application/x-bzip2"
    else if text_eq ext (codes ".zip")
    then codes "application/zip"
    else if text_eq ext (codes ".tar")
    then codes "application/x-tar"
    else codes "application/octet-stream"

-- `detectContentType`
unfoldable pub detect_content_type : Text → Text
unfolding path_ext content_type_of
detect_content_type url = content_type_of (path_ext url)

-- What is uploaded under the artifact's path.
pub record Artifact : Type 0 where
  pub checksum : Text
  pub size : ℕ

-- A transfer: the sizes that were read and expected at each write of the progress, and what it ended in.
pub record Transfer : Type 0 where
  pub progress : List (ℕ × ℕ)
  pub outcome : Option Artifact
  pub failure : Text

unfoldable pub table_error_text : TableError → Text
table_error_text job_not_found = codes "download job not found"
table_error_text duplicate_job = codes "failed to create download job"
table_error_text missing_parent_row = codes "failed to create download job"

-- The end of a method: the error of the last statement, with its prefix.
unfoldable pub complete_download : Tables → ℕ → DownloadJob → Artifact → Tables × Option Text
unfolding mark_job_completed build_artifact_path table_error_text
complete_download db now job artifact =
    let (db', error) =
      mark_job_completed db now job.id (build_artifact_path job) artifact.checksum artifact.size in
    elim error [
      | some e ↦ (db', some (codes "failed to mark job completed: " ++ table_error_text e))
      | none ↦ (db', none)
    ]

unfoldable pub write_progress : Tables → Text → List (ℕ × ℕ) → Tables
unfolding update_progress
write_progress db id [] = db
write_progress db id ((received, total) ∷ rest) =
    write_progress (update_progress db id received total).0 id rest

-- The part of a method behind `MarkStarted`: the progress that it writes, then its failure or its
-- completion.
unfoldable pub finish_transfer : Tables → ℕ → DownloadJob → Transfer → Tables × Option Text
unfolding write_progress complete_download
finish_transfer db now job transfer =
    let db' = write_progress db job.id transfer.progress in
    elim transfer.outcome [
      | none ↦ (db', some transfer.failure)
      | some artifact ↦ complete_download db' now job artifact
    ]

-- `DownloadHTTPWithOptions` and `DownloadLocal`, with what the handlers write in the meantime.
unfoldable pub run_transfer :
    Tables → ℕ → DownloadJob → (Tables → Tables) → Transfer → Tables × Option Text
unfolding mark_job_started finish_transfer table_error_text
run_transfer db now job meanwhile transfer =
    let (db', error) = mark_job_started db now job.id in
    elim error [
      | some e ↦ (db', some (codes "failed to mark job started: " ++ table_error_text e))
      | none ↦ finish_transfer (meanwhile db') now job transfer
    ]
