-- ===== src/Api/Backups/Synthesis.antt =====
-- app/api/backups.py: `synthesize_full_backup`, a full snapshot from the manifests of the latest
-- one.
use backupos.Base.{ℕ, ◌+◌, none, some, List, [], ◌∷◌, ◌++◌, Bytes, codes, length, if◌then◌else◌}
use backupos.Merkle.{root_hash}
use backupos.Models.{full, completed, BackupJob, BackupSnapshot, SnapshotFile, Database}
use backupos.Http.{Response, answer, failed_with, not_found, unprocessable}
use backupos.Backup.{latest}
use backupos.Restore.{files_of}
use backupos.Scheduler.Integrity.{manifest_hashes}
use backupos.Snapshots.{DataSource, owns}
use backupos.Api.Backups.{log_event}

-- `created_at` is that of the snapshot.
pub record SynthesizeResponse : Type 0 where
  pub synthetic_snapshot_id : ℕ
  pub source_id : ℕ
  pub merkle_root : Bytes
  pub total_size_bytes : ℕ
  pub chunk_count : ℕ
  pub file_count : ℕ
  pub created_at : ℕ

-- The job that stands for the synthesis.
unfoldable pub synth_job : ℕ → ℕ → ℕ → BackupJob
synth_job now job_id source_id = record {
  id = job_id;
  source_id = source_id;
  celery_task_id = none;
  backup_type = full;
  status = completed;
  error_message = none;
  started_at = some now;
  completed_at = some now;
  created_at = now;
}

-- The manifests of a snapshot as those of another.
unfoldable pub copy_manifests : ℕ → List SnapshotFile → List SnapshotFile
copy_manifests snapshot_id [] = []
copy_manifests snapshot_id (sf ∷ files) =
    record sf { snapshot_id = snapshot_id } ∷ copy_manifests snapshot_id files

module _ {Float : Type 0} (sha256 : Bytes → Bytes) where
  unfoldable pub synth_snapshot :
      ℕ → ℕ → ℕ → ℕ → BackupSnapshot Float → List Bytes → BackupSnapshot Float
  synth_snapshot created snapshot_id job_id source_id newest all_hashes = record {
    id = snapshot_id;
    job_id = job_id;
    source_id = source_id;
    merkle_root = root_hash sha256 all_hashes;
    parent_snapshot_id = none;
    total_size_bytes = newest.total_size_bytes;
    dedup_size_bytes = newest.dedup_size_bytes;
    chunk_count = length all_hashes;
    new_chunk_count = 0;
    average_entropy = newest.average_entropy;
    created_at = created;
    locked_until = none;
    last_verified_at = none;
    verification_status = none;
  }

  -- The rows that are added, for the file records of the latest snapshot.
  unfoldable pub add_synthetic :
      ℕ → ℕ → ℕ → ℕ → BackupSnapshot Float → List SnapshotFile → Database Float → Database Float
  add_synthetic now created tenant_id source_id newest file_records db =
      let all_hashes = manifest_hashes file_records in
      let snapshot_id = db.next_snapshot_id in
      log_event tenant_id (codes "snapshot.synthesize_full") (codes "BackupSnapshot")
        (some snapshot_id)
        (record db {
          backup_jobs = db.backup_jobs ++ synth_job now db.next_job_id source_id ∷ [];
          next_job_id = db.next_job_id + 1;
          snapshots =
              db.snapshots
              ++ synth_snapshot created snapshot_id db.next_job_id source_id newest all_hashes ∷ [];
          next_snapshot_id = snapshot_id + 1;
          files = db.files ++ copy_manifests snapshot_id file_records;
        })

  unfoldable pub synthesize_from :
      ℕ
      → ℕ
      → ℕ
      → ℕ
      → BackupSnapshot Float
      → List SnapshotFile
      → Database Float
      → Response SynthesizeResponse × Database Float
  synthesize_from now created tenant_id source_id newest [] db = (failed_with unprocessable, db)
  synthesize_from now created tenant_id source_id newest (sf ∷ files) db =
      let all_hashes = manifest_hashes (sf ∷ files) in
      (
        answer (record {
          synthetic_snapshot_id = db.next_snapshot_id;
          source_id = source_id;
          merkle_root = root_hash sha256 all_hashes;
          total_size_bytes = newest.total_size_bytes;
          chunk_count = length all_hashes;
          file_count = length (sf ∷ files);
          created_at = created;
        }),
        add_synthetic now created tenant_id source_id newest (sf ∷ files) db,
      )

  -- `now` and `created` are the readings of the clock for the job and for the snapshot.
  unfoldable pub synthesize_full_backup :
      ℕ
      → ℕ
      → ℕ
      → List DataSource
      → ℕ
      → Database Float
      → Response SynthesizeResponse × Database Float
  synthesize_full_backup now created tenant_id sources source_id db =
      if owns tenant_id source_id sources
      then elim (latest source_id db.snapshots) [
        | none ↦ (failed_with not_found, db)
        | some newest ↦
            synthesize_from now created tenant_id source_id newest (files_of newest.id db.files) db
      ]
      else (failed_with not_found, db)
