-- ===== src/Scheduler/Tests.antt =====
-- Runs of the pruner and of the integrity check, and the theorems where their hypotheses hold.
use backupos.Base.{
  ℕ, ◌≡◌, ◌↔◌, refl, true, false, none, some, Option, [], ◌∷◌, codes, bytes_beq, arith,
}
use backupos.Base.Dict.{lookup, insert, erase, pair_beq}
use backupos.Merkle.{root_hash}
use backupos.Merkle.Sample.{sample_sha256, sample-IsCollisionFree, chunk_digest}
use backupos.Cas.{
  CasStore, err, file_not_found, retrieve, store, store_new, write_atomically, written,
  is_compressed, entropy_of, payload_of, decode, delete, exists, shard_empty,
}
use backupos.Cas.Sample.{tenths, sample_env, empty_store}
use backupos.Models.{BackupSnapshot, BackupChunk, SnapshotFile, BackupPolicy, Database}
use backupos.Backup.{latest, hashes_of}
use backupos.Backup.Alerts.{get_policy}
use backupos.Backup.Sample.{text}
use backupos.Restore.{get_snapshot, files_of}
use backupos.Scheduler.{join_policies, policy_rows}
use backupos.Scheduler.Retention.{
  delete_snapshot, still_referenced, collect_garbage, insert_asc, expired, prune_loop, prune_source,
  prune_rows, prune_expired_snapshots,
}
use backupos.Scheduler.Prune.{IsThere, prune_source-keeps_latest, prune-keeps_locked}
use backupos.Scheduler.Collect.{retrieve-prune_rows}
use backupos.Scheduler.Integrity.{check_snapshot, check_snapshot_exact, passed, manifest_hashes}

-- A snapshot of source 1 with the one chunk `text`.
abbrev snapshot_of : ℕ → Option ℕ → ℕ → Option ℕ → BackupSnapshot ℕ
snapshot_of snapshot_id parent created locked = record {
  id = snapshot_id;
  job_id = snapshot_id;
  source_id = 1;
  merkle_root = sample_sha256 text;
  parent_snapshot_id = parent;
  total_size_bytes = 2;
  dedup_size_bytes = 2;
  chunk_count = 1;
  new_chunk_count = 1;
  average_entropy = 30;
  created_at = created;
  locked_until = locked;
  last_verified_at = none;
  verification_status = none;
}

abbrev manifest_of : ℕ → SnapshotFile
manifest_of snapshot_id = record {
  snapshot_id = snapshot_id;
  file_path = codes "a";
  file_size = 2;
  chunk_hashes = sample_sha256 text ∷ [];
}

abbrev chunk_of : ℕ → BackupChunk ℕ
chunk_of snapshot_id = record {
  snapshot_id = snapshot_id;
  chunk_hash = sample_sha256 text;
  size_bytes = 2;
  compressed_size_bytes = 6;
  entropy = 30;
  is_new = true;
}

abbrev one_day : BackupPolicy ℕ
one_day = record {
  id = 1;
  tenant_id = 6;
  name = [];
  description = none;
  policy_yaml = [];
  frequency_minutes = 60;
  retention_days = 1;
  rpo_minutes = 60;
  require_checksum = true;
  require_dedup = true;
  entropy_threshold = 75;
  is_active = true;
}

-- An old snapshot that holds the chunk's row, and a new one that inherits the chunk.
abbrev chain_db : Option ℕ → Option ℕ → Database ℕ
chain_db parent locked = record {
  backup_jobs = [];
  restore_jobs = [];
  snapshots = snapshot_of 1 none 10 locked ∷ snapshot_of 2 parent 900000 none ∷ [];
  chunks = chunk_of 1 ∷ [];
  files = manifest_of 1 ∷ manifest_of 2 ∷ [];
  policies = one_day ∷ [];
  attachments = record { policy_id = 1; source_id = 1 } ∷ [];
  alerts = [];
  audit_logs = [];
  next_restore_id = 4;
  next_policy_id = 3;
  next_job_id = 9;
  next_snapshot_id = 3;
}

abbrev text_store : CasStore
text_store = (store tenths sample_env written text (some 30) empty_store).1

-- The chunk goes with the old snapshot, and the new snapshot still lists it.
inherited_chunk_lost :
    let (after, left) = prune_expired_snapshots false 1000000 (chain_db none none) text_store in
    (retrieve tenths sample_env (sample_sha256 text) left ≡ err file_not_found)
    × (files_of 2 after.files ≡ manifest_of 2 ∷ [])
unfolding prune_expired_snapshots prune_rows prune_source prune_loop expired insert_asc
    collect_garbage still_referenced delete_snapshot latest hashes_of get_policy join_policies
    policy_rows files_of retrieve decode store store_new write_atomically is_compressed entropy_of
    payload_of delete exists shard_empty lookup insert erase pair_beq bytes_beq sample_sha256
inherited_chunk_lost = (refl, refl)

-- With foreign keys, the old snapshot is the parent of the new one and is not pruned.
parent_not_pruned :
    (prune_expired_snapshots true 1000000 (chain_db (some 1) none) text_store).0
    ≡ chain_db (some 1) none
unfolding prune_expired_snapshots prune_rows prune_source prune_loop expired insert_asc
    delete_snapshot latest get_policy join_policies policy_rows
parent_not_pruned = refl

new-IsThere : IsThere (snapshot_of 2 none 900000 none) (chain_db none none)
unfolding get_snapshot
new-IsThere = record { found = refl; only = (λ e. absurd (omega arith), (λ e. refl, tt)) }

prune_source-keeps_latest_example :
    get_snapshot 2 (snapshot_of 2 none 900000 none ∷ []) ≡ some (snapshot_of 2 none 900000 none)
unfolding prune_source prune_loop expired insert_asc delete_snapshot latest
prune_source-keeps_latest_example =
    prune_source-keeps_latest false 1000000 (record { policy = one_day; source_id = 1 })
      (snapshot_of 2 none 900000 none) (chain_db none none)
      (record (chain_db none none) {
        snapshots = snapshot_of 2 none 900000 none ∷ [];
        chunks = [];
        files = manifest_of 2 ∷ [];
      })
      text_store refl new-IsThere refl

locked-IsThere : IsThere (snapshot_of 1 none 10 (some 2000000)) (chain_db none (some 2000000))
unfolding get_snapshot
locked-IsThere = record { found = refl; only = (λ e. refl, (λ e. absurd (omega arith), tt)) }

prune-keeps_locked_example :
    get_snapshot 1
      (prune_expired_snapshots false 1000000 (chain_db none (some 2000000)) text_store).0.snapshots
    ≡ some (snapshot_of 1 none 10 (some 2000000))
prune-keeps_locked_example =
    prune-keeps_locked false 1000000 (snapshot_of 1 none 10 (some 2000000))
      (chain_db none (some 2000000)) text_store refl locked-IsThere

-- Both snapshots have a row for the chunk.
abbrev shared_db : Database ℕ
shared_db = record (chain_db none none) { chunks = chunk_of 1 ∷ chunk_of 2 ∷ [] }

retrieve-prune_rows_example :
    retrieve tenths sample_env (sample_sha256 text) text_store
    ≡ retrieve tenths sample_env (sample_sha256 text) text_store
unfolding prune_rows prune_source prune_loop expired insert_asc collect_garbage still_referenced
    delete_snapshot latest hashes_of get_policy join_policies policy_rows bytes_beq sample_sha256
retrieve-prune_rows_example =
    retrieve-prune_rows tenths sample_env (sample_sha256 text) false 1000000 shared_db
      (record (chain_db none none) {
        snapshots = snapshot_of 2 none 900000 none ∷ [];
        chunks = chunk_of 2 ∷ [];
        files = manifest_of 2 ∷ [];
      })
      text_store text_store refl refl

abbrev sealed_snapshot : BackupSnapshot ℕ
sealed_snapshot = record (snapshot_of 1 none 10 none) {
  merkle_root = root_hash sample_sha256 (chunk_digest 1 ∷ chunk_digest 2 ∷ []);
}

abbrev changed_file : SnapshotFile
changed_file = record (manifest_of 1) { chunk_hashes = chunk_digest 1 ∷ chunk_digest 3 ∷ [] }

check_snapshot_exact_example :
    ((check_snapshot sample_sha256 50 (changed_file ∷ []) sealed_snapshot).verification_status
      ≡ some passed)
    ↔ (manifest_hashes (changed_file ∷ []) ≡ chunk_digest 1 ∷ chunk_digest 2 ∷ [])
check_snapshot_exact_example =
    check_snapshot_exact sample_sha256 50 changed_file [] sealed_snapshot
      (chunk_digest 1 ∷ chunk_digest 2 ∷ []) sample-IsCollisionFree refl (refl, (refl, tt))
      (refl, (refl, tt)) refl
