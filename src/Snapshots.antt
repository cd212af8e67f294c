-- ===== src/Snapshots.antt =====
-- app/api/snapshots.py: the lock of a snapshot. A handler gives the snapshot that it answers with,
-- or `none` where it answers 404; `lock_days` is not negative.
mod Locks
mod Tests
use backupos.Base.{
  ℕ, ◌+◌, Bool, true, false, ◌&&◌, ◌||◌, Option, none, some, List, [], ◌∷◌, nat_eq, ◌==◌,
  if◌then◌else◌,
}
use backupos.Models.{BackupSnapshot, Database}
use backupos.Restore.{get_snapshot}
use backupos.Scheduler.Retention.{days}
use backupos.Scheduler.Integrity.{set_snapshot}

pub record DataSource : Type 0 where
  pub id : ℕ
  pub tenant_id : ℕ

-- `DataSource.id == source_id, DataSource.tenant_id == tenant.id`
unfoldable pub owns : ℕ → ℕ → List DataSource → Bool
owns tenant_id source_id [] = false
owns tenant_id source_id (d ∷ sources) =
    (d.id == source_id && d.tenant_id == tenant_id) || owns tenant_id source_id sources

abbrev pub lock_until : {Float : Type 0} → Option ℕ → BackupSnapshot Float → BackupSnapshot Float
lock_until until s = record s { locked_until = until }

module _ {Float : Type 0} (tenant_id : ℕ) (sources : List DataSource) where
  -- `_get_owned_snapshot`
  unfoldable pub get_owned_snapshot : ℕ → Database Float → Option (BackupSnapshot Float)
  get_owned_snapshot snapshot_id db = elim (get_snapshot snapshot_id db.snapshots) [
    | none ↦ none
    | some s ↦ if owns tenant_id s.source_id sources then some s else none
  ]

  unfoldable pub set_lock :
      Option ℕ → ℕ → Database Float → Option (BackupSnapshot Float) × Database Float
  set_lock until snapshot_id db = elim (get_owned_snapshot snapshot_id db) [
    | none ↦ (none, db)
    | some s ↦ (
      some (lock_until until s),
      record db { snapshots = set_snapshot snapshot_id (lock_until until) db.snapshots },
    )
  ]

  unfoldable pub lock_snapshot :
      ℕ → ℕ → ℕ → Database Float → Option (BackupSnapshot Float) × Database Float
  lock_snapshot now lock_days snapshot_id db = set_lock (some (now + days lock_days)) snapshot_id db

  unfoldable pub unlock_snapshot :
      ℕ → Database Float → Option (BackupSnapshot Float) × Database Float
  unlock_snapshot snapshot_id db = set_lock none snapshot_id db
