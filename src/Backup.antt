-- ===== src/Backup.antt =====
-- app/workers/backup_worker.py: the task `run_backup`. The file tree is an argument, in the order
-- of `os.walk`; the outcome of each write to the store is a function of the chunk's position.
pub mod Alerts
pub mod Sample
pub mod Task
pub mod Stored
pub mod Manifest
pub mod Success
mod Digests
mod Failure
mod Settled
pub mod Steps
mod Tests
use backupos.Base.{
  ℕ, zero, suc, ◌+◌, ◌-◌, ◌*◌, Bool, true, false, not, ◌&&◌, ◌||◌, Option, none, some, List, [],
  ◌∷◌, ◌++◌, map, Bytes, bytes_eq, nat_eq, codes, contains, ◌==◌, ltb, leb, length, take, drop,
  if◌then◌else◌,
}
use mathlib.Core.List.{flatten}
use backupos.Entropy.{FloatOps, shannon_entropy}
use backupos.Chunker.{chunk_data}
use backupos.Merkle.{root_hash, diff}
use backupos.Cas.{CasEnv, CasStore, CasError, os_error, Result, ok, err, WriteOutcome, store}
use backupos.Models.{
  JobStatus, running, completed, failed, TaskError, cas_error, BackupType, full, incremental,
  BackupJob, BackupSnapshot, BackupChunk, SnapshotFile, Database,
}

-- What `source_path` names. The contents of a file are `none` where it cannot
-- be opened or read.
pub data Source : Type 0 where
  is_file : Bytes → Option Bytes → Source
  is_dir : List (Bytes × Option Bytes) → Source
  missing : Source

-- An entry of `file_manifest`.
pub record ManifestEntry : Type 0 where
  pub rel_path : Bytes
  pub file_size : ℕ
  pub file_chunks : List Bytes

unfoldable pub entry_of : Bytes → Bytes → ManifestEntry
entry_of path bytes = record {
  rel_path = path;
  file_size = length bytes;
  file_chunks = chunk_data bytes;
}

unfoldable pub collect_dir : List (Bytes × Option Bytes) → List ManifestEntry
collect_dir [] = []
collect_dir ((path, none) ∷ entries) = collect_dir entries
collect_dir ((path, some bytes) ∷ entries) = entry_of path bytes ∷ collect_dir entries

-- `file_manifest`; a file that is the source itself is read without a handler for the error.
unfoldable pub collect : Source → Result (List ManifestEntry)
unfolding collect_dir entry_of
collect (is_file name none) = err os_error
collect (is_file name (some bytes)) = ok (entry_of name bytes ∷ [])
collect (is_dir entries) = ok (collect_dir entries)
collect missing = ok []

-- `all_chunks`
abbrev pub all_chunks : List ManifestEntry → List Bytes
all_chunks [] = []
all_chunks (e ∷ manifest) = e.file_chunks ++ all_chunks manifest

-- `db.get(BackupJob, job_id)`
unfoldable pub get_job : ℕ → List BackupJob → Option BackupJob
get_job job_id [] = none
get_job job_id (job ∷ jobs) = if job.id == job_id then some job else get_job job_id jobs

-- Assignments to the columns of one job.
unfoldable pub set_job : ℕ → (BackupJob → BackupJob) → List BackupJob → List BackupJob
set_job job_id change [] = []
set_job job_id change (job ∷ jobs) =
    let rest = set_job job_id change jobs in
    if job.id == job_id then change job ∷ jobs else job ∷ rest

-- An element of the lists `chunk_hashes`, `chunk_sizes`, `chunk_stored_sizes`, `chunk_is_new` and
-- `chunk_entropies`, which have one length.
pub record ChunkRow (Float : Type 0) : Type 0 where
  pub digest : Bytes
  pub size : ℕ
  pub stored_size : ℕ
  pub is_new : Bool
  pub entropy : Float

module _ {Float : Type 0} where
  -- `.where(source_id == …).order_by(created_at.desc()).limit(1)`
  unfoldable pub latest : ℕ → List (BackupSnapshot Float) → Option (BackupSnapshot Float)
  latest source_id [] = none
  latest source_id (s ∷ snapshots) =
      let rest = latest source_id snapshots in
      if s.source_id == source_id
      then elim rest [
        | none ↦ some s
        | some t ↦ if ltb s.created_at t.created_at then some t else some s
      ]
      else rest

  -- The hashes of a snapshot's `BackupChunk` rows.
  unfoldable pub hashes_of : ℕ → List (BackupChunk Float) → List Bytes
  hashes_of snapshot_id [] = []
  hashes_of snapshot_id (c ∷ chunks) =
      let rest = hashes_of snapshot_id chunks in
      if c.snapshot_id == snapshot_id then c.chunk_hash ∷ rest else rest

  abbrev pub total_of : List (ChunkRow Float) → ℕ
  total_of [] = 0
  total_of (r ∷ rows) = r.size + total_of rows

  -- `sum(s for s, is_new in zip(chunk_sizes, chunk_is_new) if is_new)`
  abbrev pub dedup_of : List (ChunkRow Float) → ℕ
  dedup_of [] = 0
  dedup_of (r ∷ rows) = (if r.is_new then r.size else 0) + dedup_of rows

  abbrev pub digests : List (ChunkRow Float) → List Bytes
  digests [] = []
  digests (r ∷ rows) = r.digest ∷ digests rows

  -- The rows of `backup_chunks` for the chunks in `new_hashes`.
  unfoldable pub new_chunks : ℕ → List Bytes → List (ChunkRow Float) → List (BackupChunk Float)
  new_chunks snapshot_id new_hashes [] = []
  new_chunks snapshot_id new_hashes (r ∷ rows) =
      let rest = new_chunks snapshot_id new_hashes rows in
      if contains new_hashes r.digest
      then record {
        snapshot_id = snapshot_id;
        chunk_hash = r.digest;
        size_bytes = r.size;
        compressed_size_bytes = r.stored_size;
        entropy = r.entropy;
        is_new = true;
      }
        ∷ rest
      else rest

-- The manifests, each with the digests of its chunks from `chunk_offset` on.
unfoldable pub snapshot_files : ℕ → List Bytes → ℕ → List ManifestEntry → List SnapshotFile
snapshot_files snapshot_id chunk_hashes chunk_offset [] = []
snapshot_files snapshot_id chunk_hashes chunk_offset (e ∷ manifest) =
    let n = length e.file_chunks in
    record {
      snapshot_id = snapshot_id;
      file_path = e.rel_path;
      file_size = e.file_size;
      chunk_hashes = take n (drop chunk_offset chunk_hashes);
    }
    ∷ snapshot_files snapshot_id chunk_hashes (chunk_offset + n) manifest

-- `len(set(hashes))`
unfoldable pub distinct : List Bytes → ℕ
distinct [] = 0
distinct (h ∷ hs) = (if contains hs h then 0 else 1) + distinct hs

-- `job.status = …; job.error_message = …`, and the other assignments to a job.
abbrev pub to_running : ℕ → BackupJob → BackupJob
to_running now job = record job { status = running; started_at = some now }

abbrev pub to_completed : ℕ → BackupJob → BackupJob
to_completed now job = record job { status = completed; completed_at = some now }

abbrev pub to_failed : TaskError → BackupJob → BackupJob
to_failed e job = record job { status = failed; error_message = some e }

-- How a call of the task ends: it returns, it asks Celery for another attempt, or an exception
-- leaves it.
pub data Outcome : Type 0 where
  returned : Outcome
  retry : TaskError → Outcome
  raised : TaskError → Outcome
