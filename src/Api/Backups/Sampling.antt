-- ===== src/Api/Backups/Sampling.antt =====
-- app/api/backups.py: `sample_change_rate`. `random.sample` is a parameter. The reasons, which are
-- texts for people, are left out.
use backupos.Base.{
  ℕ, Bool, true, not, Option, none, some, List, [], ◌∷◌, Bytes, bytes_eq, contains, ◌+◌, ltb,
  length, if◌then◌else◌,
}
use backupos.Entropy.{FloatOps}
use backupos.Models.{BackupSnapshot, Database}
use backupos.Http.{Response, answer, failed_with, not_found}
use backupos.Backup.Alerts.{by_newest}
use backupos.Restore.{files_of}
use backupos.Scheduler.Integrity.{manifest_hashes}
use backupos.Snapshots.{DataSource}
use backupos.Queries.{if_owned}

-- `source_id` is that of the snapshots, which are those of one source.
pub record ChangeRate (Float : Type 0) : Type 0 where
  pub source_id : ℕ
  pub latest_snapshot_id : ℕ
  pub previous_snapshot_id : Option ℕ
  pub sample_size : ℕ
  pub changed_chunks : ℕ
  pub estimated_change_rate : Float
  pub should_backup : Bool

-- `sum(1 for h in sampled if h not in prev_hash_set)`
unfoldable pub count_changed : List Bytes → List Bytes → ℕ
count_changed prev_hashes [] = 0
count_changed prev_hashes (h ∷ sampled) =
    (if contains prev_hashes h then 0 else 1) + count_changed prev_hashes sampled

module _ (F : FloatOps) (random_sample : List Bytes → ℕ → List Bytes) where
  open F use {Float, of_nat, decimal, div, lt}

  -- At most `sample_size` of the digests.
  unfoldable pub sample : ℕ → List Bytes → List Bytes
  sample sample_size hashes =
      if ltb sample_size (length hashes) then random_sample hashes sample_size else hashes

  abbrev pub rate_of : ℕ → ℕ → Float
  rate_of changed total = if ltb 0 total then div (of_nat changed) (of_nat total) else decimal 0 1

  -- The comparison of two snapshots.
  unfoldable pub compare_sample :
      Float
      → BackupSnapshot Float
      → BackupSnapshot Float
      → List Bytes
      → List Bytes
      → ChangeRate Float
  compare_sample change_threshold newest previous sampled prev_hashes =
      let changed = count_changed prev_hashes sampled in
      let rate = rate_of changed (length sampled) in
      record {
        source_id = newest.source_id;
        latest_snapshot_id = newest.id;
        previous_snapshot_id = some previous.id;
        sample_size = length sampled;
        changed_chunks = changed;
        estimated_change_rate = rate;
        should_backup = not (lt rate change_threshold);
      }

  -- The digests of the latest snapshot are not none.
  unfoldable pub against :
      ℕ
      → Float
      → BackupSnapshot Float
      → List Bytes
      → List (BackupSnapshot Float)
      → Database Float
      → ChangeRate Float
  against sample_size change_threshold newest hashes [] db = record {
    source_id = newest.source_id;
    latest_snapshot_id = newest.id;
    previous_snapshot_id = none;
    sample_size = length hashes;
    changed_chunks = length hashes;
    estimated_change_rate = decimal 10 1;
    should_backup = true;
  }
  against sample_size change_threshold newest hashes (previous ∷ older) db =
      compare_sample change_threshold newest previous (sample sample_size hashes)
        (manifest_hashes (files_of previous.id db.files))

  abbrev pub first_id : List (BackupSnapshot Float) → Option ℕ
  first_id [] = none
  first_id (s ∷ older) = some s.id

  unfoldable pub rate_of_latest :
      ℕ
      → Float
      → BackupSnapshot Float
      → List Bytes
      → List (BackupSnapshot Float)
      → Database Float
      → ChangeRate Float
  rate_of_latest sample_size change_threshold newest [] older db = record {
    source_id = newest.source_id;
    latest_snapshot_id = newest.id;
    previous_snapshot_id = first_id older;
    sample_size = 0;
    changed_chunks = 0;
    estimated_change_rate = decimal 0 1;
    should_backup = true;
  }
  rate_of_latest sample_size change_threshold newest (h ∷ hashes) older db =
      against sample_size change_threshold newest (h ∷ hashes) older db

  unfoldable pub rate_of_source :
      ℕ → Float → List (BackupSnapshot Float) → Database Float → Response (ChangeRate Float)
  rate_of_source sample_size change_threshold [] db = failed_with not_found
  rate_of_source sample_size change_threshold (newest ∷ older) db = answer (
      rate_of_latest sample_size change_threshold newest
        (manifest_hashes (files_of newest.id db.files)) older db)

  unfoldable pub sample_change_rate :
      ℕ → Float → ℕ → List DataSource → ℕ → Database Float → Response (ChangeRate Float)
  sample_change_rate sample_size change_threshold tenant_id sources source_id db =
      if_owned tenant_id source_id sources
        (rate_of_source sample_size change_threshold (by_newest source_id db.snapshots) db)
