-- ===== src/Restore/EndToEnd.antt =====
-- A backup and a restore of it, from end to end.
use backupos.Base.{
  ℕ, ◌≡◌, refl, sym, ap, subst, ◌∙◌, Bool, true, Option, none, some, List, [], ◌∷◌, map, Bytes,
  bytes_eq, beq_refl,
}
use backupos.Base.Dict.{Dict}
use backupos.Entropy.{FloatOps}
use backupos.Merkle.{root_hash, verify}
use backupos.Merkle.Collision.{IsCollisionFree}
use backupos.Cas.{CasEnv, CasStore, ok, WriteOutcome, written}
use backupos.Cas.Decode.{IsZstd, IsFaithful}
use backupos.Models.{BackupType, BackupJob, BackupSnapshot, Database, RestoreJob}
use backupos.Backup.{
  is_dir, ManifestEntry, Outcome, returned, collect, collect_dir, all_chunks, get_job,
}
use backupos.Backup.Task.{Clock, no_faults, run_backup}
use backupos.Backup.Stored.{AllStorable, AllFound}
use backupos.Backup.Manifest.{IsFresh, sealed}
use backupos.Backup.Success.{IsBackedUp, run_backup-IsBackedUp}
use backupos.Restore.{
  Attempt, select_files, files_of, get_snapshot, get_restore, restore_running, restore_verifying,
  restore_completed, restore_records, root_matches,
}
use backupos.Restore.Task.{change_job, conclude, restore_snapshot, run_restore}
use backupos.Restore.Rows.{
  get_restore-id, get_snapshot-append, files_of-append, files_of-sealed, get_restore-set_restore,
}
use backupos.Restore.Files.{write_all, copy_tree, write_all-collect_dir, restore_files-sealed}

module _ (F : FloatOps) (env : CasEnv F) (writable : Bytes → Bool) where
  open F use {Float}
  open env use {sha256, compress, decompress}

  -- The root of the digests that were restored is the snapshot's.
  pub root_matches-own :
      (hashes : List Bytes) (snapshot : BackupSnapshot Float)
      → snapshot.merkle_root ≡ root_hash sha256 hashes
      → root_matches F env writable none hashes snapshot ≡ true
  unfolding root_matches verify
  root_matches-own hashes snapshot e = rw e (beq_refl (root_hash sha256 hashes))

  -- What a restore that succeeds gives: the task returns, the job is completed and the disk has
  -- the files.
  pub record IsRestored (finished job_id : ℕ) (run : (Outcome × Database Float) × Dict Bytes Bytes)
      (job : RestoreJob) (disk : Dict Bytes Bytes) : Type 0 where
    pub returns : run.0.0 ≡ returned
    pub completes :
        get_restore job_id run.0.1.restore_jobs
        ≡ some (restore_completed finished (restore_verifying job))
    pub files : run.1 ≡ disk

  restore_snapshot-IsRestored :
      (finished job_id : ℕ) (snapshot : BackupSnapshot Float) (e : ManifestEntry)
      (manifest : List ManifestEntry) (job : RestoreJob) (db : Database Float) (cas : CasStore)
      (disk : Dict Bytes Bytes)
      → files_of snapshot.id db.files ≡ sealed sha256 snapshot.id (e ∷ manifest)
      → snapshot.merkle_root ≡ root_hash sha256 (map sha256 (all_chunks (e ∷ manifest)))
      → get_restore job_id db.restore_jobs ≡ some job
      → job.id ≡ job_id
      → ((path : Bytes) → writable path ≡ true)
      → AllFound F env (all_chunks (e ∷ manifest)) cas
      → IsRestored finished job_id
          (restore_snapshot F env writable finished job_id snapshot none db cas disk)
          job
          (write_all (e ∷ manifest) disk)
  unfolding restore_snapshot select_files restore_records sealed conclude change_job
  restore_snapshot-IsRestored finished job_id snapshot e manifest job db cas disk rows root here own
        w found =
      let hashes = map sha256 (all_chunks (e ∷ manifest)) in
      let restored =
        restore_files-sealed F env writable cas snapshot.id (e ∷ manifest) [] disk w found in
      let records = files_of snapshot.id db.files in
      let result =
        ap (λ fs. restore_records F env writable cas snapshot.id fs db disk) rows ∙ restored in
      let verifying =
        get_restore-set_restore job_id restore_verifying db.restore_jobs job here own in
      rw (result, root_matches-own hashes snapshot root, restore_snapshot, conclude)
        (record {
          returns = refl;
          completes = get_restore-set_restore job_id (restore_completed finished) _ _ verifying own;
          files = ap (λ (r : Dict Bytes Bytes × Attempt (List Bytes)). r.0) result;
        })

  rows_of :
      (db after : Database Float) (manifest : List ManifestEntry) (cas : CasStore)
      → IsFresh db
      → (b : IsBackedUp F env db after manifest cas)
      → files_of b.snapshot.id after.files ≡ sealed sha256 b.snapshot.id manifest
  rows_of db after manifest cas fresh b =
      subst (λ n. files_of n after.files ≡ sealed sha256 n manifest) (sym b.id)
        (ap (files_of db.next_snapshot_id) b.manifests
          ∙ files_of-append db.next_snapshot_id db.files _ fresh.manifests
          ∙ files_of-sealed sha256 db.next_snapshot_id manifest)

  snapshot_of :
      (db after : Database Float) (manifest : List ManifestEntry) (cas : CasStore)
      → IsFresh db
      → (b : IsBackedUp F env db after manifest cas)
      → get_snapshot db.next_snapshot_id after.snapshots ≡ some b.snapshot
  snapshot_of db after manifest cas fresh b =
      ap (get_snapshot db.next_snapshot_id) b.added
      ∙ get_snapshot-append db.next_snapshot_id db.snapshots b.snapshot fresh.ids b.id

  run_restore-IsRestored :
      (started finished job_id : ℕ) (e : ManifestEntry) (manifest : List ManifestEntry)
      (job : RestoreJob) (db after : Database Float) (cas : CasStore) (disk : Dict Bytes Bytes)
      → IsFresh db
      → IsBackedUp F env db after (e ∷ manifest) cas
      → get_restore job_id db.restore_jobs ≡ some job
      → ((path : Bytes) → writable path ≡ true)
      → IsRestored finished job_id
          (run_restore F env writable started finished job_id db.next_snapshot_id none after cas
            disk)
          (restore_running started job)
          (write_all (e ∷ manifest) disk)
  unfolding run_restore change_job
  run_restore-IsRestored started finished job_id e manifest job db after cas disk fresh b here w =
      let same = get_restore-id job_id db.restore_jobs job here in
      let here_after = ap (get_restore job_id) b.others ∙ here in
      rw (here_after, snapshot_of db after (e ∷ manifest) cas fresh b, run_restore)
        (restore_snapshot-IsRestored finished job_id b.snapshot e manifest
          (restore_running started job) (change_job F job_id (restore_running started) after) cas
          disk (rows_of db after (e ∷ manifest) cas fresh b) b.root
          (get_restore-set_restore job_id (restore_running started) after.restore_jobs job
            here_after same)
          same w b.found)

  module _ (zstd : IsZstd compress decompress) (free : IsCollisionFree sha256) where
    -- A backup of a directory and a restore of its snapshot: if no write and no
    -- statement of the database fails, both tasks return,
    -- the restore job is completed, and the restored directory has every readable file with its
    -- contents and nothing else of the backup.
    pub restore-backup :
        (clock : Clock) (io : ℕ → WriteOutcome) (job_id source_id : ℕ)
        (entries : List (Bytes × Option Bytes)) (backup_type : BackupType) (e : ManifestEntry)
        (manifest : List ManifestEntry) (job : BackupJob) (restore_job : RestoreJob)
        (db : Database Float) (cas : CasStore) (started finished restore_id : ℕ)
        (disk : Dict Bytes Bytes)
        → get_job job_id db.backup_jobs ≡ some job
        → get_restore restore_id db.restore_jobs ≡ some restore_job
        → ((n : ℕ) → io n ≡ written)
        → ((path : Bytes) → writable path ≡ true)
        → collect_dir entries ≡ e ∷ manifest
        → IsFaithful F env cas
        → AllStorable F env (all_chunks (e ∷ manifest))
        → IsFresh db
        → let (out, after, stored) =
            run_backup F env clock no_faults io job_id source_id
              (is_dir entries)
              backup_type
              db
              cas in
          (out ≡ returned)
          × IsRestored finished restore_id
              (run_restore F env writable started finished restore_id db.next_snapshot_id none after
                stored disk)
              (restore_running started restore_job)
              (copy_tree entries disk)
    unfolding collect
    restore-backup clock io job_id source_id entries backup_type e manifest job restore_job db cas
          started finished restore_id disk here restore_here good w files faithful storable fresh =
        let (returns, backed_up) =
          run_backup-IsBackedUp F env zstd free clock io job_id source_id (is_dir entries)
            backup_type (e ∷ manifest) job db cas here good (ap ok files) faithful storable in
        let copied = ap (λ m. write_all m disk) (sym files) ∙ write_all-collect_dir entries disk in
        (
          returns,
          subst (IsRestored finished restore_id _ _) copied (
              run_restore-IsRestored started finished restore_id e manifest restore_job db _ _ disk
                fresh backed_up restore_here w),
        )
