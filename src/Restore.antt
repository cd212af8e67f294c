-- ===== src/Restore.antt =====
-- app/workers/restore_worker.py: the task `run_restore`. The directory `restore_path` is a
-- dictionary from relative paths to contents; `writable` says which of them can be opened.
pub mod Task
pub mod Rows
mod Files
pub mod EndToEnd
pub mod Whole
mod Tests
use backupos.Base.{
  ℕ, zero, suc, ◌+◌, ◌/◌, ◌%◌, Bool, true, false, not, ◌&&◌, Option, none, some, List, [], ◌∷◌,
  ◌++◌, Bytes, bytes_eq, nat_eq, codes, ◌==◌, ltb, length, if◌then◌else◌,
}
use backupos.Base.Dict.{Dict, insert}
use backupos.Entropy.{FloatOps}
use backupos.Merkle.{verify}
use backupos.Cas.{CasEnv, CasStore, Result, ok, err, retrieve}
use backupos.Models.{
  JobStatus, running, verifying, completed, failed, RestoreJob, TaskError, cas_error,
  snapshot_not_found, file_not_in_snapshot, root_mismatch, cannot_write, BackupSnapshot,
  SnapshotFile, Database, checksum_mismatch, critical, AnomalyAlert,
}
use backupos.Backup.{Outcome, returned, retry, hashes_of}

-- What a step of the `try` block gives, or the exception that it raises.
pub data Attempt (A : Type 0) : Type 0 where
  value : A → Attempt A
  raised : TaskError → Attempt A

-- `db.get(RestoreJob, job_id)`
unfoldable pub get_restore : ℕ → List RestoreJob → Option RestoreJob
get_restore job_id [] = none
get_restore job_id (job ∷ jobs) = if job.id == job_id then some job else get_restore job_id jobs

unfoldable pub set_restore : ℕ → (RestoreJob → RestoreJob) → List RestoreJob → List RestoreJob
set_restore job_id change [] = []
set_restore job_id change (job ∷ jobs) =
    let rest = set_restore job_id change jobs in
    if job.id == job_id then change job ∷ jobs else job ∷ rest

abbrev pub restore_running : ℕ → RestoreJob → RestoreJob
restore_running now job = record job { status = running; started_at = some now }

abbrev pub restore_verifying : RestoreJob → RestoreJob
restore_verifying job = record job { status = verifying }

abbrev pub restore_completed : ℕ → RestoreJob → RestoreJob
restore_completed now job = record job { status = completed; completed_at = some now }

abbrev pub restore_failed : TaskError → RestoreJob → RestoreJob
restore_failed e job = record job { status = failed; error_message = some e }

-- `.where(SnapshotFile.snapshot_id == snapshot_id).order_by(SnapshotFile.id)`
unfoldable pub files_of : ℕ → List SnapshotFile → List SnapshotFile
files_of snapshot_id [] = []
files_of snapshot_id (f ∷ files) =
    let rest = files_of snapshot_id files in if f.snapshot_id == snapshot_id then f ∷ rest else rest

-- `[f for f in file_records if f.file_path == file_path]`
unfoldable pub with_path : Bytes → List SnapshotFile → List SnapshotFile
with_path path [] = []
with_path path (f ∷ files) =
    let rest = with_path path files in if f.file_path == path then f ∷ rest else rest

-- The records to restore: all of them, or those of the one file that was asked for.
unfoldable pub select_files : ℕ → Option Bytes → List SnapshotFile → Attempt (List SnapshotFile)
select_files snapshot_id none records = value records
select_files snapshot_id (some path) [] = value []
select_files snapshot_id (some path) (f ∷ records) = elim (with_path path (f ∷ records)) [
  | [] ↦ raised (file_not_in_snapshot path snapshot_id)
  | g ∷ found ↦ value (g ∷ found)
]

-- `str(n)`: the digits of a number, with fuel of the number itself.
unfoldable pub digits : ℕ → ℕ → Bytes
digits zero n = (48 + n % 10) ∷ []
digits (suc fuel) n =
    let front = digits fuel (n / 10) in
    if ltb n 10 then (48 + n) ∷ [] else front ++ (48 + n % 10) ∷ []

unfoldable pub blob_name : ℕ → Bytes
unfolding digits
blob_name snapshot_id = codes "snapshot_" ++ digits snapshot_id snapshot_id ++ codes ".bin"

module _ {Float : Type 0} where
  unfoldable pub get_snapshot : ℕ → List (BackupSnapshot Float) → Option (BackupSnapshot Float)
  get_snapshot snapshot_id [] = none
  get_snapshot snapshot_id (s ∷ snapshots) =
      if s.id == snapshot_id then some s else get_snapshot snapshot_id snapshots

module _ (F : FloatOps) (env : CasEnv F) (writable : Bytes → Bool) where
  open F use {Float, of_nat}
  open env use {sha256}

  -- The chunks that are written to an open file before the first that cannot be read, after what
  -- is in it.
  unfoldable pub write_chunks : CasStore → List Bytes → Bytes → Bytes × Option TaskError
  write_chunks cas [] content = (content, none)
  write_chunks cas (h ∷ hashes) content = elim (retrieve F env h cas) [
    | err e ↦ (content, some (cas_error e))
    | ok bytes ↦ write_chunks cas hashes (content ++ bytes)
  ]

  unfoldable pub restore_file :
      CasStore → Bytes → List Bytes → Dict Bytes Bytes → Dict Bytes Bytes × Option TaskError
  unfolding write_chunks
  restore_file cas path hashes disk =
      if writable path
      then (let (content, stop) = write_chunks cas hashes [] in (insert path content disk, stop))
      else (disk, some (cannot_write path))

  -- The loop over the file records, with `restored_hashes`.
  unfoldable pub restore_files :
      CasStore
      → List SnapshotFile
      → List Bytes
      → Dict Bytes Bytes
      → Dict Bytes Bytes × Attempt (List Bytes)
  restore_files cas [] restored_hashes disk = (disk, value restored_hashes)
  restore_files cas (f ∷ files) restored_hashes disk =
      let (after, stop) = restore_file cas f.file_path f.chunk_hashes disk in
      elim stop [
        | some e ↦ (after, raised e)
        | none ↦ restore_files cas files (restored_hashes ++ f.chunk_hashes) after
      ]

  -- The snapshots that have no file records: all the chunks, in one file.
  unfoldable pub restore_blob :
      CasStore → ℕ → List Bytes → Dict Bytes Bytes → Dict Bytes Bytes × Attempt (List Bytes)
  restore_blob cas snapshot_id hashes disk =
      let (after, stop) = restore_file cas (blob_name snapshot_id) hashes disk in
      elim stop [ some e ↦ (after, raised e) | none ↦ (after, value hashes) ]

  unfoldable pub restore_records :
      CasStore
      → ℕ
      → List SnapshotFile
      → Database Float
      → Dict Bytes Bytes
      → Dict Bytes Bytes × Attempt (List Bytes)
  restore_records cas snapshot_id [] db disk =
      restore_blob cas snapshot_id (hashes_of snapshot_id db.chunks) disk
  restore_records cas snapshot_id (f ∷ files) db disk = restore_files cas (f ∷ files) [] disk

  -- The check of the Merkle root, which the restore of one file skips.
  unfoldable pub root_matches : Option Bytes → List Bytes → BackupSnapshot Float → Bool
  root_matches none restored_hashes snapshot = verify sha256 restored_hashes snapshot.merkle_root
  root_matches (some path) restored_hashes snapshot = true
