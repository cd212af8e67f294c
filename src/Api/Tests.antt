-- ===== src/Api/Tests.antt =====
-- Requests about the one snapshot of a source: a synthesis, backups and a restore.
use backupos.Base.{
  ℕ, ◌+◌, ◌*◌, ◌≤◌, ◌≡◌, refl, Option, Bytes, length, true, none, some, List, [], ◌∷◌, bytes_beq,
  codes, arith,
}
use backupos.Base.Dict.{lookup, insert, erase, pair_beq}
use backupos.Merkle.{root_hash}
use backupos.Merkle.Sample.{sample_sha256}
use backupos.Cas.{
  CasStore, err, file_not_found, retrieve, store, store_new, write_atomically, written,
  is_compressed, entropy_of, payload_of, decode, delete, exists, shard_empty,
}
use backupos.Cas.Sample.{tenths, sample_env, empty_store}
use backupos.Models.{
  BackupSnapshot, BackupChunk, SnapshotFile, BackupPolicy, Database, full, incremental, RestoreJob,
  pending,
}
use backupos.Http.{answer}
use backupos.Backup.{returned, latest, hashes_of}
use backupos.Backup.Alerts.{get_policy}
use backupos.Backup.Manifest.{IsFresh}
use backupos.Backup.Sample.{text, sample_db, sample_restore}
use backupos.Restore.{digits, get_restore, get_snapshot, files_of}
use backupos.Restore.Task.{run_restore}
use backupos.Scheduler.{join_policies, policy_rows}
use backupos.Scheduler.Retention.{
  delete_snapshot, still_referenced, collect_garbage, insert_asc, expired, prune_loop, prune_source,
  prune_rows, prune_expired_snapshots,
}
use backupos.Snapshots.{DataSource, owns}
use backupos.Scheduler.Policies.{new_job}
use backupos.RateLimit.{check, admitted, enforce_rate_limit}
use backupos.RateLimit.Sample.{keys, sample_incr, sample_expire}
use backupos.Queries.{choose_snapshot}
use backupos.Api.Backups.{log_event, triggered, add_job, trigger_owned, trigger_backup}
use backupos.Api.Limits.{Request, serve, serve_bound}
use backupos.Api.Owners.{IsOf, trigger_restore-owned}
use backupos.Api.Backups.Synthesis.{
  synth_snapshot, copy_manifests, add_synthetic, synthesize_from, synthesize_full_backup,
}
use backupos.Api.Restores.{
  trigger_restore, restore_job, path_or, default_path, join_path, verify_snapshot,
}
use backupos.Api.Synthetic.{restore-synthesize, verify-synthesize}

abbrev sources : List DataSource
sources = record { id = 1; tenant_id = 6 } ∷ []

abbrev first_snapshot : BackupSnapshot ℕ
first_snapshot = record {
  id = 4;
  job_id = 7;
  source_id = 1;
  merkle_root = sample_sha256 text;
  parent_snapshot_id = none;
  total_size_bytes = 2;
  dedup_size_bytes = 2;
  chunk_count = 1;
  new_chunk_count = 1;
  average_entropy = 30;
  created_at = 10;
  locked_until = none;
  last_verified_at = none;
  verification_status = none;
}

abbrev manifest : SnapshotFile
manifest = record {
  snapshot_id = 4;
  file_path = codes "a";
  file_size = 2;
  chunk_hashes = sample_sha256 text ∷ [];
}

abbrev chunk : BackupChunk ℕ
chunk = record {
  snapshot_id = 4;
  chunk_hash = sample_sha256 text;
  size_bytes = 2;
  compressed_size_bytes = 6;
  entropy = 30;
  is_new = true;
}

abbrev one_day : BackupPolicy ℕ
one_day = record {
  id = 1;
  tenant_id = 6;
  name = [];
  description = none;
  policy_yaml = [];
  frequency_minutes = 60;
  retention_days = 1;
  rpo_minutes = 60;
  require_checksum = true;
  require_dedup = true;
  entropy_threshold = 75;
  is_active = true;
}

abbrev one : Database ℕ
one = record sample_db {
  snapshots = first_snapshot ∷ [];
  files = manifest ∷ [];
  chunks = chunk ∷ [];
  policies = one_day ∷ [];
  attachments = record { policy_id = 1; source_id = 1 } ∷ [];
}

abbrev text_store : CasStore
text_store = (store tenths sample_env written text (some 30) empty_store).1

one-IsFresh : IsFresh one
one-IsFresh = record { ids = omega arith; manifests = omega arith }

restore-synthesize_example :
    let after = (synthesize_full_backup sample_sha256 900000 900001 6 sources 1 one).1 in
    let old = run_restore tenths sample_env (λ p. true) 950000 950001 3 4 none one text_store [] in
    let new =
      run_restore tenths sample_env (λ p. true) 950000 950001 3 5 none after text_store [] in
    (new.1 ≡ old.1) × (old.0.0 ≡ returned → new.0.0 ≡ returned)
unfolding owns latest get_snapshot files_of get_restore
restore-synthesize_example =
    restore-synthesize tenths sample_env (λ p. true) 900000 900001 6 1 sources first_snapshot
      manifest [] sample_restore one text_store 950000 950001 3 [] refl refl refl refl refl
      one-IsFresh

verify-synthesize_example :
    let after = (synthesize_full_backup sample_sha256 900000 900001 6 sources 1 one).1 in
    let hashes = sample_sha256 text ∷ [] in
    verify_snapshot sample_sha256 6 sources 1 5 after
    ≡ answer (record {
      snapshot_id = 5;
      source_id = 1;
      chunk_count = 1;
      merkle_root_stored = root_hash sample_sha256 hashes;
      merkle_root_computed = root_hash sample_sha256 hashes;
      is_valid = true;
    })
unfolding owns latest files_of
verify-synthesize_example =
    verify-synthesize sample_sha256 900000 900001 6 1 sources first_snapshot manifest [] one refl
      refl refl one-IsFresh

-- The synthetic snapshot has no rows of chunks: once the snapshot behind it expires, its chunk
-- goes.
synthetic_chunk_lost :
    let after = (synthesize_full_backup sample_sha256 900000 900001 6 sources 1 one).1 in
    let (pruned, left) =
      prune_expired_snapshots true 1000000 (record after { restore_jobs = [] }) text_store in
    (retrieve tenths sample_env (sample_sha256 text) left ≡ err file_not_found)
    × (files_of 5 pruned.files ≡ record manifest { snapshot_id = 5 } ∷ [])
unfolding synthesize_full_backup synthesize_from add_synthetic synth_snapshot copy_manifests
    log_event owns prune_expired_snapshots prune_rows prune_source prune_loop expired insert_asc
    collect_garbage still_referenced delete_snapshot latest hashes_of get_policy join_policies
    policy_rows files_of retrieve decode store store_new write_atomically is_compressed entropy_of
    payload_of delete exists shard_empty lookup insert erase pair_beq bytes_beq sample_sha256
synthetic_chunk_lost = (refl, refl)

abbrev broker : ℕ → Option Bytes
broker job_id = some (codes "task")

-- Four requests within a minute, with a limit of one.
abbrev requests : List Request
requests =
    record { now = 20; source_id = 1; backup_type = full }
    ∷ record { now = 30; source_id = 1; backup_type = incremental }
    ∷ record { now = 70; source_id = 2; backup_type = full }
    ∷ record { now = 71; source_id = 1; backup_type = full }
    ∷ []

one_started : length (serve tenths broker keys 1 6 sources requests one []).0.backup_jobs ≡ 2
unfolding serve trigger_backup trigger_owned triggered add_job log_event owns enforce_rate_limit
    check admitted sample_incr sample_expire lookup insert new_job
one_started = refl

serve_bound_example :
    length (serve tenths broker keys 1 6 sources requests one []).0.backup_jobs ≤ 1 + 2 * 1
unfolding lookup
serve_bound_example =
    serve_bound tenths broker keys 1 6 20 sources requests one [] none refl tt (omega arith)

abbrev started : RestoreJob
started = record {
  id = 4;
  source_id = 1;
  snapshot_id = 4;
  celery_task_id = some (codes "task");
  restore_path = codes "/tmp/out";
  status = pending;
  error_message = none;
  started_at = none;
  completed_at = none;
}

trigger_restore-owned_example :
    (owns 6 1 sources ≡ true) × ((s : BackupSnapshot ℕ) × (s.id ≡ 4) × IsOf 1 one.snapshots s)
unfolding trigger_restore restore_job path_or choose_snapshot latest owns
trigger_restore-owned_example =
    trigger_restore-owned (codes "/cas") broker 6 1 sources none (some (codes "/tmp/out")) one
      started refl

default_path_test : default_path (codes "/cas") 1 12 ≡ codes "/cas/restores/source_1_snap_12"
unfolding default_path join_path digits bytes_beq
default_path_test = refl
