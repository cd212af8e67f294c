-- ===== src/Restore/Task.antt =====
-- app/workers/restore_worker.py: `run_restore` from end to end.
use backupos.Base.{ℕ, Bool, true, false, Option, none, some, List, [], ◌∷◌, ◌++◌, Bytes, length}
use backupos.Base.Dict.{Dict}
use backupos.Entropy.{FloatOps}
use backupos.Cas.{CasEnv, CasStore}
use backupos.Models.{
  TaskError, snapshot_not_found, root_mismatch, BackupSnapshot, Database, AnomalyAlert,
  checksum_mismatch, critical, RestoreJob,
}
use backupos.Backup.{Outcome, returned, retry}
use backupos.Restore.{
  value, raised, get_restore, set_restore, restore_running, restore_verifying, restore_completed,
  restore_failed, files_of, select_files, get_snapshot, restore_records, root_matches,
}

module _ (F : FloatOps) where
  open F use {Float, of_nat}

  unfoldable pub change_job : ℕ → (RestoreJob → RestoreJob) → Database Float → Database Float
  change_job job_id change db = record db {
    restore_jobs = set_restore job_id change db.restore_jobs;
  }

  -- The `except` branch.
  unfoldable pub fail_restore : ℕ → TaskError → Database Float → Outcome × Database Float
  fail_restore job_id e db = (retry e, change_job job_id (restore_failed e) db)

  -- The alert on a root that does not match.
  unfoldable pub mismatch_alert : BackupSnapshot Float → List Bytes → AnomalyAlert Float
  mismatch_alert snapshot restored_hashes = record {
    source_id = snapshot.source_id;
    alert_type = checksum_mismatch;
    severity = critical;
    metric_value = of_nat (length restored_hashes);
    threshold_value = of_nat snapshot.chunk_count;
    resolved = false;
  }

module _ (F : FloatOps) (env : CasEnv F) (writable : Bytes → Bool) where
  open F use {Float}

  -- From the VERIFYING state on.
  unfoldable pub conclude :
      ℕ
      → ℕ
      → Option Bytes
      → BackupSnapshot Float
      → List Bytes
      → Database Float
      → Outcome × Database Float
  conclude now job_id file_path snapshot restored_hashes db =
      let checking = change_job F job_id restore_verifying db in
      elim (root_matches F env writable file_path restored_hashes snapshot) [
        | true ↦ (returned, change_job F job_id (restore_completed now) checking)
        | false ↦
            fail_restore F job_id (root_mismatch (length restored_hashes) snapshot.merkle_root)
              (record checking {
                alerts = checking.alerts ++ mismatch_alert F snapshot restored_hashes ∷ [];
              })
      ]

  unfoldable pub restore_snapshot :
      ℕ
      → ℕ
      → BackupSnapshot Float
      → Option Bytes
      → Database Float
      → CasStore
      → Dict Bytes Bytes
      → (Outcome × Database Float) × Dict Bytes Bytes
  restore_snapshot now job_id snapshot file_path db cas disk =
      elim (select_files snapshot.id file_path (files_of snapshot.id db.files)) [
        | raised e ↦ (fail_restore F job_id e db, disk)
        | value records ↦
            let (after, attempt) = restore_records F env writable cas snapshot.id records db disk in
            elim attempt [
              | raised e ↦ (fail_restore F job_id e db, after)
              | value restored_hashes ↦
                  (conclude now job_id file_path snapshot restored_hashes db, after)
            ]
      ]

  -- `started` and `finished` are the readings of the clock.
  unfoldable pub run_restore :
      ℕ
      → ℕ
      → ℕ
      → ℕ
      → Option Bytes
      → Database Float
      → CasStore
      → Dict Bytes Bytes
      → (Outcome × Database Float) × Dict Bytes Bytes
  run_restore started finished job_id snapshot_id file_path db cas disk =
      elim (get_restore job_id db.restore_jobs) [
        | none ↦ ((returned, db), disk)
        | some job ↦
            let begun = change_job F job_id (restore_running started) db in
            elim (get_snapshot snapshot_id db.snapshots) [
              | none ↦ (fail_restore F job_id (snapshot_not_found snapshot_id) begun, disk)
              | some snapshot ↦ restore_snapshot finished job_id snapshot file_path begun cas disk
            ]
      ]
