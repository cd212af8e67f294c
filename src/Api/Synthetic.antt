-- ===== src/Api/Synthetic.antt =====
-- A synthetic full snapshot restores to what the snapshot behind it restores to, and verifies.
use backupos.Base.{
  ℕ, ◌<◌, ◌≡◌, refl, sym, ap, subst, ◌∙◌, inl, inr, Bool, true, none, some, List, [], ◌∷◌, ◌++◌,
  Bytes, bytes_eq, beq_refl, nat_eq, length, All, arith, Option-cases,
}
use backupos.Base.Dict.{Dict}
use backupos.Entropy.{FloatOps}
use backupos.Merkle.{root_hash}
use backupos.Cas.{CasEnv, CasStore}
use backupos.Models.{BackupSnapshot, SnapshotFile, Database, RestoreJob}
use backupos.Http.{answer}
use backupos.Backup.{returned, latest}
use backupos.Backup.Manifest.{IsFresh}
use backupos.Restore.{get_restore, files_of, get_snapshot, restore_file, restore_files}
use backupos.Restore.Task.{run_restore}
use backupos.Restore.Whole.{
  restore_files-hashes, ended, ended-disk, run_restore-ended, ended-returns,
}
use backupos.Restore.Rows.{get_snapshot-append, files_of-append}
use backupos.Scheduler.Integrity.{manifest_hashes}
use backupos.Snapshots.{DataSource, owns}
use backupos.Queries.{find_snapshot}
use backupos.Api.Backups.{log_event}
use backupos.Api.Backups.Synthesis.{
  synth_snapshot, copy_manifests, add_synthetic, synthesize_from, synthesize_full_backup,
}
use backupos.Api.Restores.{recorded_hashes, verify_found, verify_snapshot}

manifest_hashes-copy :
    (n : ℕ) (files : List SnapshotFile)
    → manifest_hashes (copy_manifests n files) ≡ manifest_hashes files
unfolding copy_manifests
manifest_hashes-copy n [] = refl
manifest_hashes-copy n (f ∷ files) = ap (λ hs. f.chunk_hashes ++ hs) (manifest_hashes-copy n files)

files_of-copy :
    (n : ℕ) (files : List SnapshotFile)
    → files_of n (copy_manifests n files) ≡ copy_manifests n files
unfolding files_of copy_manifests
files_of-copy n [] = refl
files_of-copy n (f ∷ files) = ground (arith, files_of-copy n files)

module _ (F : FloatOps) (env : CasEnv F) (writable : Bytes → Bool) where
  open F use {Float}
  open env use {sha256}

  -- The snapshot that the records belong to does not matter.
  restore_files-copy :
      (cas : CasStore) (n : ℕ) (files : List SnapshotFile) (hashes : List Bytes)
      (disk : Dict Bytes Bytes)
      → restore_files F env writable cas (copy_manifests n files) hashes disk
        ≡ restore_files F env writable cas files hashes disk
  unfolding restore_files copy_manifests
  restore_files-copy cas n [] hashes disk = refl
  restore_files-copy cas n (f ∷ files) hashes disk =
      elim (Option-cases (restore_file F env writable cas f.file_path f.chunk_hashes disk).1) [
        | inl fine ↦
            rw (fine, restore_files) (restore_files-copy cas n files (hashes ++ f.chunk_hashes) _)
        | inr (e, stop) ↦ rw (stop, restore_files) refl
      ]

module _ {Float : Type 0} (sha256 : Bytes → Bytes) where
  find_snapshot-append :
      (n source_id : ℕ) (snapshots : List (BackupSnapshot Float)) (s : BackupSnapshot Float)
      → All (λ (t : BackupSnapshot Float). t.id < n) snapshots
      → s.id ≡ n
      → s.source_id ≡ source_id
      → find_snapshot n source_id (snapshots ++ s ∷ []) ≡ some s
  unfolding find_snapshot
  find_snapshot-append n source_id [] s h e k = ground arith
  find_snapshot-append n source_id (t ∷ snapshots) s h e k =
      ground (arith, find_snapshot-append n source_id snapshots s h.1)

  -- What a synthesis leaves in the tables.
  record IsSynthesized (source_id : ℕ) (f : SnapshotFile) (files : List SnapshotFile)
      (db after : Database Float) : Type 0 where
    snapshot : BackupSnapshot Float
    id : snapshot.id ≡ db.next_snapshot_id
    found : get_snapshot db.next_snapshot_id after.snapshots ≡ some snapshot
    found_for : find_snapshot db.next_snapshot_id source_id after.snapshots ≡ some snapshot
    rows : files_of snapshot.id after.files ≡ copy_manifests snapshot.id (f ∷ files)
    root : snapshot.merkle_root ≡ root_hash sha256 (manifest_hashes (f ∷ files))
    restores : after.restore_jobs ≡ db.restore_jobs

  add_synthetic-IsSynthesized :
      (now created tenant_id source_id : ℕ) (newest : BackupSnapshot Float) (f : SnapshotFile)
      (files : List SnapshotFile) (db : Database Float)
      → IsFresh db
      → IsSynthesized source_id f files db
          (add_synthetic sha256 now created tenant_id source_id newest (f ∷ files) db)
  unfolding add_synthetic log_event synth_snapshot
  add_synthetic-IsSynthesized now created tenant_id source_id newest f files db fresh =
      let n = db.next_snapshot_id in
      record {
        snapshot = _;
        id = refl;
        found = get_snapshot-append n db.snapshots _ fresh.ids refl;
        found_for = find_snapshot-append n source_id db.snapshots _ fresh.ids refl refl;
        rows =
            files_of-append n db.files (copy_manifests n (f ∷ files)) fresh.manifests
            ∙ files_of-copy n (f ∷ files);
        root = refl;
        restores = refl;
      }

  synthesize-IsSynthesized :
      (now created tenant_id source_id : ℕ) (sources : List DataSource)
      (newest : BackupSnapshot Float) (f : SnapshotFile) (files : List SnapshotFile)
      (db : Database Float)
      → owns tenant_id source_id sources ≡ true
      → latest source_id db.snapshots ≡ some newest
      → files_of newest.id db.files ≡ f ∷ files
      → IsFresh db
      → IsSynthesized source_id f files db
          (synthesize_full_backup sha256 now created tenant_id sources source_id db).1
  unfolding synthesize_full_backup synthesize_from
  synthesize-IsSynthesized now created tenant_id source_id sources newest f files db mine last rows
        fresh =
      rw (mine, last, rows, synthesize_full_backup, synthesize_from)
        (add_synthetic-IsSynthesized now created tenant_id source_id newest f files db fresh)

module _ (F : FloatOps) (env : CasEnv F) (writable : Bytes → Bool) where
  open F use {Float}
  open env use {sha256}

  -- Where the latest snapshot of the tenant's source has manifests, and the next id of a snapshot
  -- is fresh, a restore of the synthetic full snapshot writes the same files as a restore of the
  -- latest snapshot, and it returns if that one does.
  pub restore-synthesize :
      (now created tenant_id source_id : ℕ) (sources : List DataSource)
      (newest : BackupSnapshot Float) (f : SnapshotFile) (files : List SnapshotFile)
      (job : RestoreJob) (db : Database Float) (cas : CasStore) (started finished job_id : ℕ)
      (disk : Dict Bytes Bytes)
      → owns tenant_id source_id sources ≡ true
      → latest source_id db.snapshots ≡ some newest
      → get_snapshot newest.id db.snapshots ≡ some newest
      → files_of newest.id db.files ≡ f ∷ files
      → get_restore job_id db.restore_jobs ≡ some job
      → IsFresh db
      → let after = (synthesize_full_backup sha256 now created tenant_id sources source_id db).1 in
        let old = run_restore F env writable started finished job_id newest.id none db cas disk in
        let new =
          run_restore F env writable started finished job_id db.next_snapshot_id none after cas
            disk in
        (new.1 ≡ old.1) × (old.0.0 ≡ returned → new.0.0 ≡ returned)
  unfolding copy_manifests
  restore-synthesize now created tenant_id source_id sources newest f files job db cas started
        finished job_id disk mine last found rows here fresh =
      let b =
        synthesize-IsSynthesized sha256 now created tenant_id source_id sources newest f files db
          mine last rows fresh in
      let after = (synthesize_full_backup sha256 now created tenant_id sources source_id db).1 in
      let old =
        run_restore-ended F env writable started finished job_id newest.id newest f files job db cas
          disk here found rows in
      let new =
        run_restore-ended F env writable started finished job_id db.next_snapshot_id b.snapshot _ _
          job after cas disk (ap (get_restore job_id) b.restores ∙ here) b.found b.rows
        ∙ ap (ended F env writable finished job_id b.snapshot _)
            (restore_files-copy F env writable cas b.snapshot.id (f ∷ files) [] disk) in
      let read = restore_files F env writable cas (f ∷ files) [] disk in
      rw (old, new)
        (
          ended-disk F env writable finished job_id b.snapshot _ read
              ∙ sym (ended-disk F env writable finished job_id newest _ read),
          ended-returns F env writable finished job_id newest b.snapshot _ _ (f ∷ files) read
              (λ hashes e. restore_files-hashes F env writable cas (f ∷ files) [] hashes disk e)
              b.root,
        )

module _ {Float : Type 0} (sha256 : Bytes → Bytes) where
  verify_found-own :
      (source_id n : ℕ) (db : Database Float) (s : BackupSnapshot Float) (hashes : List Bytes)
      → recorded_hashes (files_of n db.files) n db.chunks ≡ hashes
      → s.merkle_root ≡ root_hash sha256 hashes
      → verify_found sha256 source_id n db s ≡ record {
        snapshot_id = n;
        source_id = source_id;
        chunk_count = length hashes;
        merkle_root_stored = root_hash sha256 hashes;
        merkle_root_computed = root_hash sha256 hashes;
        is_valid = true;
      }
  unfolding verify_found
  verify_found-own source_id n db s hashes e root =
      rw (e, root) (rw (beq_refl (root_hash sha256 hashes)) refl)

  -- Where the latest snapshot of the tenant's source has manifests, and the next id of a snapshot
  -- is fresh, the check of the synthetic full snapshot passes, with the root of the digests in the
  -- manifests of the latest snapshot, whatever root the latest snapshot has.
  pub verify-synthesize :
      (now created tenant_id source_id : ℕ) (sources : List DataSource)
      (newest : BackupSnapshot Float) (f : SnapshotFile) (files : List SnapshotFile)
      (db : Database Float)
      → owns tenant_id source_id sources ≡ true
      → latest source_id db.snapshots ≡ some newest
      → files_of newest.id db.files ≡ f ∷ files
      → IsFresh db
      → let after = (synthesize_full_backup sha256 now created tenant_id sources source_id db).1 in
        let hashes = manifest_hashes (f ∷ files) in
        verify_snapshot sha256 tenant_id sources source_id db.next_snapshot_id after
        ≡ answer (record {
          snapshot_id = db.next_snapshot_id;
          source_id = source_id;
          chunk_count = length hashes;
          merkle_root_stored = root_hash sha256 hashes;
          merkle_root_computed = root_hash sha256 hashes;
          is_valid = true;
        })
  unfolding verify_snapshot recorded_hashes copy_manifests
  verify-synthesize now created tenant_id source_id sources newest f files db mine last rows fresh =
      let after = (synthesize_full_backup sha256 now created tenant_id sources source_id db).1 in
      let b =
        synthesize-IsSynthesized sha256 now created tenant_id source_id sources newest f files db
          mine last rows fresh in
      let hashes = ap (λ hs. f.chunk_hashes ++ hs) (manifest_hashes-copy b.snapshot.id files) in
      let recorded =
        subst
          (λ k.
            recorded_hashes (files_of k after.files) k after.chunks ≡ manifest_hashes (f ∷ files))
          b.id (ap (λ fs. recorded_hashes fs b.snapshot.id after.chunks) b.rows ∙ hashes) in
      rw (mine, b.found_for)
        (ap answer
          (verify_found-own source_id db.next_snapshot_id after b.snapshot _ recorded b.root))
