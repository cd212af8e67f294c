-- ===== src/Catalog/Tests.antt =====
-- A file in the first and the third of three snapshots, and in the fourth unchanged.
use backupos.Base.{ℕ, ◌≡◌, refl, true, false, none, List, [], ◌∷◌, bytes_beq, codes, take}
use backupos.Base.Dict.{lookup, insert}
use backupos.Models.{BackupSnapshot, SnapshotFile, Database}
use backupos.Http.{answer}
use backupos.Backup.Alerts.{by_newest, insert_desc}
use backupos.Backup.Sample.{sample_db}
use backupos.Snapshots.{DataSource, owns}
use backupos.Catalog.{FileVersion, file_version_history, file_map, walk, versions, hashes_beq}
use backupos.Catalog.History.{Told, history_exact}
use backupos.Catalog.Newest.{IsNewestFirst, of_source}
use backupos.Catalog.Records.{last_record}
use mathlib.Core.List.{Perm}

abbrev snapshot : ℕ → BackupSnapshot ℕ
snapshot n = record {
  id = n;
  job_id = n;
  source_id = 1;
  merkle_root = [];
  parent_snapshot_id = none;
  total_size_bytes = 2;
  dedup_size_bytes = 2;
  chunk_count = 1;
  new_chunk_count = 1;
  average_entropy = 30;
  created_at = n;
  locked_until = none;
  last_verified_at = none;
  verification_status = none;
}

abbrev stored : ℕ → SnapshotFile
stored n = record {
  snapshot_id = n;
  file_path = codes "/a";
  file_size = 2;
  chunk_hashes = codes "d" ∷ [];
}

abbrev four : Database ℕ
four = record sample_db {
  snapshots = snapshot 1 ∷ snapshot 2 ∷ snapshot 3 ∷ snapshot 4 ∷ [];
  files = stored 1 ∷ stored 3 ∷ stored 4 ∷ [];
}

abbrev sources : List DataSource
sources = record { id = 1; tenant_id = 6 } ∷ []

only_last_unchanged :
    file_version_history 6 sources 1 (codes "/a") 50 four
    ≡ answer (
        record {
          snapshot_id = 4;
          snapshot_created_at = 4;
          file_size = 2;
          chunk_count = 1;
          changed = false;
        }
        ∷ record {
          snapshot_id = 3;
          snapshot_created_at = 3;
          file_size = 2;
          chunk_count = 1;
          changed = true;
        }
        ∷ record {
          snapshot_id = 1;
          snapshot_created_at = 1;
          file_size = 2;
          chunk_count = 1;
          changed = true;
        }
        ∷ [])
unfolding file_version_history file_map walk versions hashes_beq by_newest insert_desc owns lookup
    insert bytes_beq
only_last_unchanged = refl

-- The limit hides the older version that is the same.
limit_shows_change :
    file_version_history 6 sources 1 (codes "/a") 1 four
    ≡ answer (
        record {
          snapshot_id = 4;
          snapshot_created_at = 4;
          file_size = 2;
          chunk_count = 1;
          changed = true;
        }
        ∷ [])
unfolding file_version_history file_map walk versions hashes_beq by_newest insert_desc owns lookup
    insert bytes_beq
limit_shows_change = refl

history_exact_example :
    (newest : List (BackupSnapshot ℕ)) × (vs : List FileVersion) × Perm newest
      (of_source 1 four.snapshots)
    × IsNewestFirst newest
    × (file_version_history 6 sources 1 (codes "/a") 50 four ≡ answer vs)
    × Told (last_record (codes "/a") four.files) (take 50 newest) vs
unfolding owns
history_exact_example = history_exact 6 1 50 sources (codes "/a") four refl
