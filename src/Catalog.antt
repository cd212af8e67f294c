-- ===== src/Catalog.antt =====
-- app/api/catalog.py: the search of a snapshot's files, and the versions of one file.
-- `fnmatch.fnmatch` is a parameter.

pub mod History
pub mod Newest
pub mod Records
pub mod Walk
mod Tests
use backupos.Base.{
  ℕ, Bool, true, false, not, ◌&&◌, Option, none, some, List, [], ◌∷◌, Bytes, bytes_eq, nat_eq,
  contains, ◌==◌, length, take, if◌then◌else◌,
}
use mathlib.Core.List.{reverse}
use backupos.Base.Dict.{Dict, lookup, insert}
use backupos.Models.{BackupSnapshot, SnapshotFile, Database}
use backupos.Http.{Response, answer}
use backupos.Backup.{latest}
use backupos.Backup.Alerts.{by_newest}
use backupos.Restore.{files_of}
use backupos.Snapshots.{DataSource}
use backupos.Queries.{find_snapshot, if_owned, or_not_found}

pub record CatalogEntry : Type 0 where
  pub file_path : Bytes
  pub file_size : ℕ
  pub chunk_count : ℕ
  pub snapshot_id : ℕ
  pub snapshot_created_at : ℕ

pub record FileVersion : Type 0 where
  pub snapshot_id : ℕ
  pub snapshot_created_at : ℕ
  pub file_size : ℕ
  pub chunk_count : ℕ
  pub changed : Bool

module _ {Float : Type 0} where
  -- `snapshot_id is not None`: 0 is an id here.
  unfoldable pub target : Option ℕ → ℕ → List (BackupSnapshot Float) → Option (BackupSnapshot Float)
  target none source_id snapshots = latest source_id snapshots
  target (some snapshot_id) source_id snapshots = find_snapshot snapshot_id source_id snapshots

  unfoldable pub catalog_entry : BackupSnapshot Float → SnapshotFile → CatalogEntry
  catalog_entry snap f = record {
    file_path = f.file_path;
    file_size = f.file_size;
    chunk_count = length f.chunk_hashes;
    snapshot_id = snap.id;
    snapshot_created_at = snap.created_at;
  }

  unfoldable pub matches :
      (Bytes → Bytes → Bool) → Bytes → BackupSnapshot Float → List SnapshotFile → List CatalogEntry
  matches fnmatch q snap [] = []
  matches fnmatch q snap (f ∷ files) =
      let rest = matches fnmatch q snap files in
      if fnmatch f.file_path q then catalog_entry snap f ∷ rest else rest

  unfoldable pub search_catalog :
      (Bytes → Bytes → Bool)
      → ℕ
      → List DataSource
      → ℕ
      → Bytes
      → Option ℕ
      → Database Float
      → Response (List CatalogEntry)
  search_catalog fnmatch tenant_id sources source_id q snapshot_id db =
      if_owned tenant_id source_id sources (
        or_not_found (target snapshot_id source_id db.snapshots) λ (snap : BackupSnapshot Float).
          answer (matches fnmatch q snap (files_of snap.id db.files)))

  abbrev pub ids_of : List (BackupSnapshot Float) → List ℕ
  ids_of [] = []
  ids_of (s ∷ snapshots) = s.id ∷ ids_of snapshots

-- `file_map`: of several records of a snapshot the last one counts.
unfoldable pub file_map :
    List ℕ → Bytes → List SnapshotFile → Dict ℕ SnapshotFile → Dict ℕ SnapshotFile
file_map snap_ids path [] found = found
file_map snap_ids path (sf ∷ files) found = file_map snap_ids path files (
    if contains snap_ids sf.snapshot_id && sf.file_path == path
    then insert sf.snapshot_id sf found
    else found)

unfoldable pub hashes_beq : List Bytes → List Bytes → Bool
hashes_beq [] [] = true
hashes_beq (x ∷ xs) (y ∷ ys) = x == y && hashes_beq xs ys
hashes_beq _ _ = false

-- `prev_hashes is None or hashes != prev_hashes`
abbrev pub is_changed : Option (List Bytes) → List Bytes → Bool
is_changed none hashes = true
is_changed (some prev_hashes) hashes = not (hashes_beq hashes prev_hashes)

module _ {Float : Type 0} (found : Dict ℕ SnapshotFile) where
  abbrev pub version_of : BackupSnapshot Float → SnapshotFile → Bool → FileVersion
  version_of s sf changed = record {
    snapshot_id = s.id;
    snapshot_created_at = s.created_at;
    file_size = sf.file_size;
    chunk_count = length sf.chunk_hashes;
    changed = changed;
  }

  -- The walk over the snapshots, the oldest first.
  unfoldable pub walk : Option (List Bytes) → List (BackupSnapshot Float) → List FileVersion
  walk prev_hashes [] = []
  walk prev_hashes (s ∷ snapshots) = elim (lookup s.id found) [
    | none ↦ walk none snapshots
    | some sf ↦
        version_of s sf (is_changed prev_hashes sf.chunk_hashes)
        ∷ walk (some sf.chunk_hashes) snapshots
  ]

  unfoldable pub versions : List (BackupSnapshot Float) → List FileVersion
  versions snapshots = reverse (walk none (reverse snapshots))

unfoldable pub file_version_history :
    {Float : Type 0}
    → ℕ
    → List DataSource
    → ℕ
    → Bytes
    → ℕ
    → Database Float
    → Response (List FileVersion)
file_version_history {Float} tenant_id sources source_id path limit db =
    let snapshots : List (BackupSnapshot Float) = take limit (by_newest source_id db.snapshots) in
    if_owned tenant_id source_id sources
      (answer (versions (file_map (ids_of snapshots) path db.files []) snapshots))
