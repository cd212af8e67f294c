-- ===== src/Queries.antt =====
-- The queries that several handlers under app/api share.
use backupos.Base.{ℕ, ◌&&◌, Option, none, some, List, [], ◌∷◌, nat_eq, ◌==◌, if◌then◌else◌}
use backupos.Models.{BackupSnapshot}
use backupos.Http.{Response, failed_with, not_found}
use backupos.Backup.{latest}
use backupos.Snapshots.{DataSource, owns}

module _ {Float : Type 0} where
  -- `.where(BackupSnapshot.id == snapshot_id, BackupSnapshot.source_id == source_id)`
  unfoldable pub find_snapshot : ℕ → ℕ → List (BackupSnapshot Float) → Option (BackupSnapshot Float)
  find_snapshot snapshot_id source_id [] = none
  find_snapshot snapshot_id source_id (s ∷ snapshots) =
      if s.id == snapshot_id && s.source_id == source_id
      then some s
      else find_snapshot snapshot_id source_id snapshots

  -- `payload.snapshot_id` is true when it is neither None nor 0.
  unfoldable pub choose_snapshot :
      Option ℕ → ℕ → List (BackupSnapshot Float) → Option (BackupSnapshot Float)
  choose_snapshot none source_id snapshots = latest source_id snapshots
  choose_snapshot (some snapshot_id) source_id snapshots =
      if snapshot_id == 0
      then latest source_id snapshots
      else find_snapshot snapshot_id source_id snapshots

-- The start of a handler: 404 unless the tenant owns the source.
abbrev pub if_owned : {A : Type 0} → ℕ → ℕ → List DataSource → Response A → Response A
if_owned tenant_id source_id sources r =
    if owns tenant_id source_id sources then r else failed_with not_found

abbrev pub or_not_found : {A B : Type 0} → Option A → (A → Response B) → Response B
or_not_found none f = failed_with not_found
or_not_found (some a) f = f a
