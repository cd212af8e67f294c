-- ===== src/Backup/Success.antt =====
-- What `run_backup` leaves when no write to the store fails.
use backupos.Base.{ℕ, ◌≡◌, refl, true, ap, ◌∙◌, some, List, [], ◌∷◌, ◌++◌, map}
use backupos.Entropy.{FloatOps}
use backupos.Merkle.{root_hash}
use backupos.Merkle.Collision.{IsCollisionFree}
use backupos.Cas.{CasEnv, CasStore, ok, WriteOutcome, written}
use backupos.Cas.Decode.{IsZstd, IsFaithful}
use backupos.Models.{BackupType, BackupSnapshot, BackupJob, Database}
use backupos.Backup.{
  Source, ManifestEntry, ChunkRow, Outcome, returned, collect, all_chunks, get_job, digests,
  snapshot_files,
}
use backupos.Backup.Steps.{persist}
use backupos.Backup.Alerts.{detect}
use backupos.Backup.Task.{Clock, no_faults, check, complete, finish, start, work, run_backup}
use backupos.Backup.Stored.{AllFound, AllStorable, store_chunks-IsStored}
use backupos.Backup.Manifest.{sealed, snapshot_files-sealed}

module _ (F : FloatOps) (env : CasEnv F) where
  open F use {Float}
  open env use {sha256, compress, decompress}

  -- The rows of the database `after` about a snapshot of the manifest, and the store `cas`.
  pub record IsBackedUp (db after : Database Float) (manifest : List ManifestEntry) (cas : CasStore)
      : Type 0 where
    pub snapshot : BackupSnapshot Float
    pub added : after.snapshots ≡ db.snapshots ++ snapshot ∷ []
    pub id : snapshot.id ≡ db.next_snapshot_id
    pub root : snapshot.merkle_root ≡ root_hash sha256 (map sha256 (all_chunks manifest))
    pub manifests : after.files ≡ db.files ++ sealed sha256 db.next_snapshot_id manifest
    pub others : after.restore_jobs ≡ db.restore_jobs
    pub found : AllFound F env (all_chunks manifest) cas

  finish-IsBackedUp :
      (clock : Clock) (job_id source_id : ℕ) (backup_type : BackupType)
      (manifest : List ManifestEntry) (rows : List (ChunkRow Float)) (db : Database Float)
      (cas : CasStore)
      → digests rows ≡ map sha256 (all_chunks manifest)
      → AllFound F env (all_chunks manifest) cas
      → IsBackedUp db
          (finish F env clock no_faults true job_id source_id backup_type manifest rows db cas).1
          manifest
          cas
  unfolding finish check complete detect persist
  finish-IsBackedUp clock job_id source_id backup_type manifest rows db cas hashes found = record {
    snapshot = _;
    added = refl;
    id = refl;
    root = ap (root_hash sha256) hashes;
    manifests =
        ap (λ hs. db.files ++ snapshot_files db.next_snapshot_id hs 0 manifest) hashes
        ∙ ap (λ fs. db.files ++ fs) (snapshot_files-sealed sha256 db.next_snapshot_id manifest);
    others = refl;
    found = found;
  }

  -- The first commit changes the job alone.
  of_start :
      (clock : Clock) (job_id : ℕ) (manifest : List ManifestEntry) (db : Database Float)
      (out : Outcome) (run : Database Float × CasStore)
      → (out ≡ returned) × IsBackedUp (start F env clock job_id db) run.0 manifest run.1
      → (out ≡ returned) × IsBackedUp db run.0 manifest run.1
  unfolding start
  of_start clock job_id manifest db out run (e, b) = (
    e,
    record {
      snapshot = b.snapshot;
      added = b.added;
      id = b.id;
      root = b.root;
      manifests = b.manifests;
      others = b.others;
      found = b.found;
    },
  )

  module _ (zstd : IsZstd compress decompress) (free : IsCollisionFree sha256) where
    -- The `try` block: it returns, and its database and store hold the snapshot.
    work-IsBackedUp :
        (clock : Clock) (io : ℕ → WriteOutcome) (job_id source_id : ℕ) (source : Source)
        (backup_type : BackupType) (manifest : List ManifestEntry) (db : Database Float)
        (cas : CasStore)
        → ((n : ℕ) → io n ≡ written)
        → collect source ≡ ok manifest
        → IsFaithful F env cas
        → AllStorable F env (all_chunks manifest)
        → let (out, after, stored) =
            work F env clock no_faults io true job_id source_id source backup_type db cas in
          (out ≡ returned) × IsBackedUp db after manifest stored
    unfolding work finish
    work-IsBackedUp clock io job_id source_id source backup_type manifest db cas good collected
          faithful storable =
        let run =
          store_chunks-IsStored F env zstd free io 0 (all_chunks manifest) cas good faithful
            storable in
        rw (collected, run.returns, work)
          (
            refl,
            finish-IsBackedUp clock job_id source_id backup_type manifest run.rows db _ run.hashes
                run.found,
          )

    -- A backup of an existing job, of a source that can be read, in which no write and no
    -- statement of the database fails, where the chunks in the store decode to data of their
    -- digests, no chunk of the source is stored raw with the zstandard magic number, and the
    -- digest has no collisions: it returns and records the snapshot, its root is that of the
    -- digests of all chunks, its manifests hold each file's digests, and the store gives back
    -- every chunk under its digest.
    pub run_backup-IsBackedUp :
        (clock : Clock) (io : ℕ → WriteOutcome) (job_id source_id : ℕ) (source : Source)
        (backup_type : BackupType) (manifest : List ManifestEntry) (job : BackupJob)
        (db : Database Float) (cas : CasStore)
        → get_job job_id db.backup_jobs ≡ some job
        → ((n : ℕ) → io n ≡ written)
        → collect source ≡ ok manifest
        → IsFaithful F env cas
        → AllStorable F env (all_chunks manifest)
        → let (out, after, stored) =
            run_backup F env clock no_faults io job_id source_id source backup_type db cas in
          (out ≡ returned) × IsBackedUp db after manifest stored
    unfolding run_backup start
    run_backup-IsBackedUp clock io job_id source_id source backup_type manifest job db cas here good
          collected faithful storable =
        rw (here, run_backup)
          (of_start clock job_id manifest db _ _ (
            work-IsBackedUp clock io job_id source_id source backup_type manifest
              (start F env clock job_id db) cas good collected faithful storable))
