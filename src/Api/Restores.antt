-- ===== src/Api/Restores.antt =====
-- app/api/restore.py: starting a restore, the check of a snapshot, and the estimate of a restore.
-- `broker` is the task id that Celery gives to the restore job with an id, or `none` where it
-- cannot be reached. An estimate of seconds is left as its two terms.
use backupos.Base.{
  ℕ, ◌+◌, ◌*◌, Bool, ◌&&◌, Option, none, some, List, [], ◌∷◌, ◌++◌, Bytes, bytes_eq, codes,
  contains, nat_eq, ◌==◌, length, drop, if◌then◌else◌,
}
use backupos.Base.Dict.{Dict, lookup, insert}
use backupos.Merkle.{root_hash}
use backupos.Models.{
  pending, failed, RestoreJob, BackupSnapshot, BackupChunk, SnapshotFile, Database,
  broker_unavailable,
}
use backupos.Http.{Response, answer, failed_with, not_found}
use backupos.Backup.{hashes_of}
use backupos.Restore.{get_restore, files_of, with_path, digits}
use backupos.Scheduler.Integrity.{manifest_hashes}
use backupos.Snapshots.{DataSource, owns}
use backupos.Queries.{find_snapshot, choose_snapshot, if_owned, or_not_found}

-- `os.path.join` with a second part that does not start with a slash.
unfoldable pub join_path : Bytes → Bytes → Bytes
join_path [] b = b
join_path (c ∷ a) b =
    if drop (length a) (c ∷ a) == (47 ∷ []) then (c ∷ a) ++ b else (c ∷ a) ++ codes "/" ++ b

unfoldable pub default_path : Bytes → ℕ → ℕ → Bytes
unfolding digits
default_path cas_store_path source_id snapshot_id =
    join_path (join_path cas_store_path (codes "restores")) (
      codes "source_"
      ++ digits source_id source_id
      ++ codes "_snap_"
      ++ digits snapshot_id snapshot_id)

-- `payload.restore_path or …`
unfoldable pub path_or : Option Bytes → Bytes → Bytes
path_or none default = default
path_or (some []) default = default
path_or (some (c ∷ path)) default = c ∷ path

-- The dispatch has given the job its task, or has raised.
abbrev pub restore_dispatched : Option Bytes → RestoreJob → RestoreJob
restore_dispatched (some task_id) job = record job { celery_task_id = some task_id }
restore_dispatched none job = record job {
  status = failed;
  error_message = some broker_unavailable;
}

module _ {Float : Type 0} (cas_store_path : Bytes) (broker : ℕ → Option Bytes) where
  unfoldable pub restore_job : ℕ → ℕ → Option Bytes → Database Float → RestoreJob
  restore_job source_id snapshot_id restore_path db =
      restore_dispatched (broker db.next_restore_id) (record {
        id = db.next_restore_id;
        source_id = source_id;
        snapshot_id = snapshot_id;
        celery_task_id = none;
        restore_path = path_or restore_path (default_path cas_store_path source_id snapshot_id);
        status = pending;
        error_message = none;
        started_at = none;
        completed_at = none;
      })

  unfoldable pub add_restore : RestoreJob → Database Float → Database Float
  add_restore job db = record db {
    restore_jobs = db.restore_jobs ++ job ∷ [];
    next_restore_id = db.next_restore_id + 1;
  }

  unfoldable pub trigger_restore :
      ℕ
      → List DataSource
      → ℕ
      → Option ℕ
      → Option Bytes
      → Database Float
      → Response RestoreJob × Database Float
  trigger_restore tenant_id sources source_id snapshot_id restore_path db =
      if owns tenant_id source_id sources
      then elim (choose_snapshot snapshot_id source_id db.snapshots) [
        | none ↦ (failed_with not_found, db)
        | some s ↦ (
          answer (restore_job source_id s.id restore_path db),
          add_restore (restore_job source_id s.id restore_path db) db,
        )
      ]
      else (failed_with not_found, db)

unfoldable pub get_restore_job :
    {Float : Type 0} → ℕ → List DataSource → ℕ → Database Float → Response RestoreJob
get_restore_job tenant_id sources job_id db = elim (get_restore job_id db.restore_jobs) [
  | none ↦ failed_with not_found
  | some job ↦ if owns tenant_id job.source_id sources then answer job else failed_with not_found
]

pub record VerifyResponse : Type 0 where
  pub snapshot_id : ℕ
  pub source_id : ℕ
  pub chunk_count : ℕ
  pub merkle_root_stored : Bytes
  pub merkle_root_computed : Bytes
  pub is_valid : Bool

module _ {Float : Type 0} where
  -- The digests in the manifests, or in the rows of chunks where there is no manifest.
  unfoldable pub recorded_hashes : List SnapshotFile → ℕ → List (BackupChunk Float) → List Bytes
  recorded_hashes [] snapshot_id chunks = hashes_of snapshot_id chunks
  recorded_hashes (sf ∷ files) snapshot_id chunks = manifest_hashes (sf ∷ files)

  unfoldable pub verify_found :
      (Bytes → Bytes) → ℕ → ℕ → Database Float → BackupSnapshot Float → VerifyResponse
  verify_found sha256 source_id snapshot_id db s =
      let hashes = recorded_hashes (files_of snapshot_id db.files) snapshot_id db.chunks in
      let computed_root = root_hash sha256 hashes in
      record {
        snapshot_id = snapshot_id;
        source_id = source_id;
        chunk_count = length hashes;
        merkle_root_stored = s.merkle_root;
        merkle_root_computed = computed_root;
        is_valid = computed_root == s.merkle_root;
      }

  unfoldable pub verify_snapshot :
      (Bytes → Bytes) → ℕ → List DataSource → ℕ → ℕ → Database Float → Response VerifyResponse
  verify_snapshot sha256 tenant_id sources source_id snapshot_id db =
      if_owned tenant_id source_id sources (
        or_not_found (find_snapshot snapshot_id source_id db.snapshots)
          λ (s : BackupSnapshot Float). answer (verify_found sha256 source_id snapshot_id db s))

-- `estimated_seconds` is the first number over the second.
pub record RestoreEstimate : Type 0 where
  pub source_id : ℕ
  pub snapshot_id : ℕ
  pub file_path : Option Bytes
  pub total_chunks : ℕ
  pub unique_chunks : ℕ
  pub estimated_bytes : ℕ
  pub estimated_seconds : ℕ × ℕ
  pub file_count : ℕ

abbrev pub restore_throughput_bps : ℕ
restore_throughput_bps = 100 * 1024 * 1024

abbrev pub avg_chunk_size : ℕ
avg_chunk_size = 4096

-- The records of one file, where a path is given that is not empty.
unfoldable pub narrow : Option Bytes → List SnapshotFile → List SnapshotFile
narrow none files = files
narrow (some []) files = files
narrow (some (c ∷ path)) files = with_path (c ∷ path) files

-- `set(all_hashes)`, as a list.
unfoldable pub unique : List Bytes → List Bytes
unique [] = []
unique (h ∷ hs) = let rest = unique hs in if contains hs h then rest else h ∷ rest

unfoldable pub sum_sizes : Dict Bytes ℕ → List Bytes → ℕ
sum_sizes sizes [] = 0
sum_sizes sizes (h ∷ hashes) =
    (elim (lookup h sizes) [ none ↦ avg_chunk_size | some n ↦ n ]) + sum_sizes sizes hashes

module _ {Float : Type 0} where
  -- `c.compressed_size_bytes or c.size_bytes`
  abbrev pub size_of : BackupChunk Float → ℕ
  size_of c = if c.compressed_size_bytes == 0 then c.size_bytes else c.compressed_size_bytes

  unfoldable pub size_map : ℕ → List Bytes → List (BackupChunk Float) → Dict Bytes ℕ → Dict Bytes ℕ
  size_map snapshot_id unique_hashes [] sizes = sizes
  size_map snapshot_id unique_hashes (c ∷ chunks) sizes =
      size_map snapshot_id unique_hashes chunks (
        if c.snapshot_id == snapshot_id && contains unique_hashes c.chunk_hash
        then insert c.chunk_hash (size_of c) sizes
        else sizes)

  unfoldable pub estimate_of :
      ℕ → BackupSnapshot Float → Option Bytes → List SnapshotFile → Database Float → RestoreEstimate
  estimate_of source_id s file_path records db =
      let all_hashes = manifest_hashes records in
      let unique_hashes = unique all_hashes in
      let bytes = sum_sizes (size_map s.id unique_hashes db.chunks []) unique_hashes in
      record {
        source_id = source_id;
        snapshot_id = s.id;
        file_path = file_path;
        total_chunks = length all_hashes;
        unique_chunks = length unique_hashes;
        estimated_bytes = bytes;
        estimated_seconds = (bytes, restore_throughput_bps);
        file_count = length records;
      }

  unfoldable pub estimate_records :
      ℕ
      → BackupSnapshot Float
      → Option Bytes
      → List SnapshotFile
      → Database Float
      → Response RestoreEstimate
  estimate_records source_id s file_path [] db = failed_with not_found
  estimate_records source_id s file_path (sf ∷ records) db =
      answer (estimate_of source_id s file_path (sf ∷ records) db)

  unfoldable pub estimate_restore :
      ℕ → List DataSource → ℕ → Option ℕ → Option Bytes → Database Float → Response RestoreEstimate
  estimate_restore tenant_id sources source_id snapshot_id file_path db =
      if_owned tenant_id source_id sources (
        or_not_found (choose_snapshot snapshot_id source_id db.snapshots)
          λ (s : BackupSnapshot Float).
            estimate_records source_id s file_path (narrow file_path (files_of s.id db.files)) db)
