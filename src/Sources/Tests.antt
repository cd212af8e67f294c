-- ===== src/Sources/Tests.antt =====
-- A source whose only snapshot is locked.
use backupos.Base.{ℕ, ◌≡◌, refl, true, none, some, [], ◌∷◌, codes, nat_eq}
use backupos.Models.{BackupJob, BackupSnapshot, Database, full, completed}
use backupos.Backup.{get_job}
use backupos.Backup.Sample.{sample_db}
use backupos.Http.{failed_with, server_error}
use backupos.Scheduler.Retention.{is_locked}
use backupos.Compliance.{internal}
use backupos.Api.Backups.{log_event}
use backupos.Sources.{
  SourceTable, directory, find_source, dropped_ids, refers_to_none, snapshots_without, cascade,
  delete_source,
}

abbrev table : SourceTable
table = record {
  rows =
      record {
        source = record { id = 1; tenant_id = 6 };
        name = codes "n";
        source_type = directory;
        path = codes "/a";
        classification = internal;
        tags = codes "[]";
      }
      ∷ [];
  next_source_id = 2;
}

abbrev job : BackupJob
job = record {
  id = 7;
  source_id = 1;
  celery_task_id = none;
  backup_type = full;
  status = completed;
  error_message = none;
  started_at = some 9;
  completed_at = some 10;
  created_at = 8;
}

abbrev locked : BackupSnapshot ℕ
locked = record {
  id = 4;
  job_id = 7;
  source_id = 1;
  merkle_root = [];
  parent_snapshot_id = none;
  total_size_bytes = 2;
  dedup_size_bytes = 2;
  chunk_count = 1;
  new_chunk_count = 1;
  average_entropy = 30;
  created_at = 10;
  locked_until = some 1000;
  last_verified_at = none;
  verification_status = none;
}

abbrev one : Database ℕ
one = record sample_db {
  backup_jobs = job ∷ [];
  snapshots = locked ∷ [];
  attachments = record { policy_id = 1; source_id = 1 } ∷ [];
}

abbrev two : Database ℕ
two = record one { snapshots = locked ∷ record locked { id = 5 } ∷ [] }

-- The delete does not look at the lock.
locked_deleted :
    (is_locked 50 locked.locked_until ≡ true)
    × ((delete_source true 6 1 table one).1.1.snapshots ≡ [])
unfolding delete_source find_source cascade dropped_ids refers_to_none snapshots_without get_job
    log_event
locked_deleted = (refl, refl)

-- A retried backup has left two snapshots of its job: the delete is refused.
twice_backed_up : (delete_source true 6 1 table two).0 ≡ failed_with server_error
unfolding delete_source find_source cascade dropped_ids refers_to_none snapshots_without get_job
    log_event
twice_backed_up = refl
