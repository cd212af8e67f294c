-- ===== src/Snapshots/Tests.antt =====
-- A lock on the only snapshot of a tenant.
use backupos.Base.{ℕ, ◌≡◌, refl, true, none, [], ◌∷◌, arith}
use backupos.Cas.Sample.{empty_store}
use backupos.Models.{BackupSnapshot, Database}
use backupos.Backup.Sample.{sample_db}
use backupos.Restore.{get_snapshot}
use backupos.Scheduler.Retention.{prune_expired_snapshots}
use backupos.Snapshots.{owns, get_owned_snapshot, lock_snapshot}
use backupos.Snapshots.Locks.{lock-prune}

abbrev old_snapshot : BackupSnapshot ℕ
old_snapshot = record {
  id = 4;
  job_id = 7;
  source_id = 1;
  merkle_root = [];
  parent_snapshot_id = none;
  total_size_bytes = 2;
  dedup_size_bytes = 2;
  chunk_count = 1;
  new_chunk_count = 1;
  average_entropy = 30;
  created_at = 10;
  locked_until = none;
  last_verified_at = none;
  verification_status = none;
}

abbrev old_db : Database ℕ
old_db = record sample_db { snapshots = old_snapshot ∷ [] }

lock-prune_example :
    let (answer, locked) =
      lock_snapshot 6 (record { id = 1; tenant_id = 6 } ∷ []) 1000 30 4 old_db in
    get_snapshot 4 (prune_expired_snapshots true 2000000 locked empty_store).0.snapshots ≡ answer
unfolding get_owned_snapshot get_snapshot owns
lock-prune_example =
    lock-prune 6 (record { id = 1; tenant_id = 6 } ∷ []) true 1000 2000000 30 4 old_snapshot old_db
      empty_store refl ((λ e. refl), tt) (omega arith)
