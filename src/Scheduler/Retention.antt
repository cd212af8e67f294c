-- ===== src/Scheduler/Retention.antt =====
-- app/core/scheduler.py: `prune_expired_snapshots`. `foreign_keys` says whether the database
-- enforces foreign keys, as PostgreSQL does and SQLite by default does not: the delete of a row
-- that another row refers to then raises.
use backupos.Base.{
  ℕ, ◌+◌, ◌*◌, Bool, true, false, ◌&&◌, ◌||◌, Option, none, some, List, [], ◌∷◌, Bytes, bytes_eq,
  nat_eq, ltb, ◌==◌, if◌then◌else◌,
}
use backupos.Cas.{CasStore, delete}
use backupos.Models.{BackupSnapshot, BackupChunk, SnapshotFile, RestoreJob, Database}
use backupos.Backup.{latest, hashes_of}
use backupos.Scheduler.{PolicyRow, policy_rows}

-- `timedelta(days=…)`, in seconds.
abbrev pub days : ℕ → ℕ
days n = n * 86400

-- `row.parent_snapshot_id == snapshot_id`, where the column may be NULL.
abbrev pub refers : Option ℕ → ℕ → Bool
refers none snapshot_id = false
refers (some parent) snapshot_id = parent == snapshot_id

-- `snapshot.locked_until and snapshot.locked_until > now`
abbrev pub is_locked : ℕ → Option ℕ → Bool
is_locked now none = false
is_locked now (some until) = ltb now until

abbrev pub drop_files : ℕ → List SnapshotFile → List SnapshotFile
drop_files snapshot_id [] = []
drop_files snapshot_id (f ∷ files) =
    let rest = drop_files snapshot_id files in
    if f.snapshot_id == snapshot_id then rest else f ∷ rest

abbrev pub restored_by : ℕ → List RestoreJob → Bool
restored_by snapshot_id [] = false
restored_by snapshot_id (job ∷ jobs) =
    job.snapshot_id == snapshot_id || restored_by snapshot_id jobs

module _ {Float : Type 0} where
  abbrev pub drop_snapshots : ℕ → List (BackupSnapshot Float) → List (BackupSnapshot Float)
  drop_snapshots snapshot_id [] = []
  drop_snapshots snapshot_id (s ∷ snapshots) =
      let rest = drop_snapshots snapshot_id snapshots in
      if s.id == snapshot_id then rest else s ∷ rest

  abbrev pub drop_chunks : ℕ → List (BackupChunk Float) → List (BackupChunk Float)
  drop_chunks snapshot_id [] = []
  drop_chunks snapshot_id (c ∷ chunks) =
      let rest = drop_chunks snapshot_id chunks in
      if c.snapshot_id == snapshot_id then rest else c ∷ rest

  abbrev pub parent_of : ℕ → List (BackupSnapshot Float) → Bool
  parent_of snapshot_id [] = false
  parent_of snapshot_id (s ∷ snapshots) =
      refers s.parent_snapshot_id snapshot_id || parent_of snapshot_id snapshots

  -- `db.delete(snapshot)` and `db.flush()`, with the cascades; `none` where the flush raises.
  unfoldable pub delete_snapshot : Bool → ℕ → Database Float → Option (Database Float)
  delete_snapshot foreign_keys snapshot_id db =
      let snapshots = drop_snapshots snapshot_id db.snapshots in
      if foreign_keys
        && (parent_of snapshot_id snapshots || restored_by snapshot_id db.restore_jobs)
      then none
      else some (record db {
        snapshots = snapshots;
        chunks = drop_chunks snapshot_id db.chunks;
        files = drop_files snapshot_id db.files;
      })

  -- `select(BackupChunk.id).where(BackupChunk.chunk_hash == chunk_hash)` finds a row.
  unfoldable pub still_referenced : Bytes → List (BackupChunk Float) → Bool
  still_referenced chunk_hash [] = false
  still_referenced chunk_hash (c ∷ chunks) =
      c.chunk_hash == chunk_hash || still_referenced chunk_hash chunks

  unfoldable pub collect_garbage : List Bytes → List (BackupChunk Float) → CasStore → CasStore
  collect_garbage [] chunks cas = cas
  collect_garbage (h ∷ hashes) chunks cas =
      collect_garbage hashes chunks (if still_referenced h chunks then cas else (delete h cas).1)

  -- `.order_by(created_at.asc())`
  unfoldable pub insert_asc :
      BackupSnapshot Float → List (BackupSnapshot Float) → List (BackupSnapshot Float)
  insert_asc s [] = s ∷ []
  insert_asc s (t ∷ ts) =
      let rest = insert_asc s ts in if ltb t.created_at s.created_at then t ∷ rest else s ∷ t ∷ ts

  -- `created_at < now - timedelta(days=retention_days)`
  unfoldable pub expired : ℕ → ℕ → ℕ → List (BackupSnapshot Float) → List (BackupSnapshot Float)
  expired now retention_days source_id [] = []
  expired now retention_days source_id (s ∷ snapshots) =
      let rest = expired now retention_days source_id snapshots in
      if s.source_id == source_id && ltb (s.created_at + days retention_days) now
      then insert_asc s rest
      else rest

  -- The two `continue`s.
  abbrev pub is_kept : ℕ → Option ℕ → BackupSnapshot Float → Bool
  is_kept now most_recent_id s = refers most_recent_id s.id || is_locked now s.locked_until

  -- The loop over the expired snapshots; the database is `none` once a flush has raised.
  unfoldable pub prune_loop :
      Bool
      → ℕ
      → Option ℕ
      → List (BackupSnapshot Float)
      → Database Float
      → CasStore
      → Option (Database Float) × CasStore
  prune_loop foreign_keys now most_recent_id [] db cas = (some db, cas)
  prune_loop foreign_keys now most_recent_id (s ∷ snapshots) db cas =
      elim (is_kept now most_recent_id s) [
        | true ↦ prune_loop foreign_keys now most_recent_id snapshots db cas
        | false ↦ elim (delete_snapshot foreign_keys s.id db) [
          | none ↦ (none, cas)
          | some after ↦
              prune_loop foreign_keys now most_recent_id snapshots after
                (collect_garbage (hashes_of s.id db.chunks) after.chunks cas)
        ]
      ]

  abbrev pub id_of : Option (BackupSnapshot Float) → Option ℕ
  id_of none = none
  id_of (some s) = some s.id

  unfoldable pub prune_source :
      Bool → ℕ → PolicyRow Float → Database Float → CasStore → Option (Database Float) × CasStore
  prune_source foreign_keys now row db cas =
      prune_loop foreign_keys now (id_of (latest row.source_id db.snapshots))
        (expired now row.policy.retention_days row.source_id db.snapshots) db cas

  unfoldable pub prune_rows :
      Bool
      → ℕ
      → List (PolicyRow Float)
      → Database Float
      → CasStore
      → Option (Database Float) × CasStore
  prune_rows foreign_keys now [] db cas = (some db, cas)
  prune_rows foreign_keys now (row ∷ rows) db cas =
      let (after, left) = prune_source foreign_keys now row db cas in
      elim after [ none ↦ (none, left) | some d ↦ prune_rows foreign_keys now rows d left ]

  -- One commit at the end; a rollback does not bring files of the store back.
  unfoldable pub prune_expired_snapshots :
      Bool → ℕ → Database Float → CasStore → Database Float × CasStore
  prune_expired_snapshots foreign_keys now db cas =
      let (after, left) = prune_rows foreign_keys now (policy_rows db) db cas in
      elim after [ none ↦ (db, left) | some d ↦ (d, left) ]
