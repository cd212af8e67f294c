-- ===== src/Backup/Settled.antt =====
-- What `run_backup` leaves in the database, whatever statement of it raises.
use backupos.Base.{
  ℕ, ◌≡◌, refl, ap, ◌∙◌, ◌⊎◌, inl, inr, true, some, List, [], ◌∷◌, ◌++◌, map, Bool-cases, ◌&&◌,
}
use backupos.Entropy.{FloatOps}
use backupos.Merkle.{root_hash}
use backupos.Cas.{CasEnv, CasStore, CasError, Result-cases, ok, WriteOutcome}
use backupos.Models.{
  BackupType, BackupJob, BackupSnapshot, Database, TaskError, cas_error, database_error,
}
use backupos.Backup.{
  Source, ManifestEntry, ChunkRow, Outcome, returned, retry, raised, collect, all_chunks, get_job,
  set_job, to_running, to_completed, to_failed, digests, snapshot_files,
}
use backupos.Backup.Alerts.{detect}
use backupos.Backup.Digests.{digests-store_chunks}
use backupos.Backup.Manifest.{sealed, snapshot_files-sealed}
use backupos.Backup.Steps.{store_chunks, persist}
use backupos.Backup.Task.{
  Clock, DbFaults, starting, comparing, persisting, detecting, alerting, completing, compares, fail,
  check, complete, finish, start, work, run_backup,
}

module _ (F : FloatOps) (env : CasEnv F) where
  open F use {Float}
  open env use {sha256}

  -- The tables about snapshots are the same.
  abbrev pub IsUntouched : Database Float → Database Float → Type 0
  IsUntouched db after =
      (after.snapshots ≡ db.snapshots)
      × (after.files ≡ db.files)
      × (after.chunks ≡ db.chunks)
      × (after.alerts ≡ db.alerts)

  -- A snapshot of the whole source is there, with its root and all its manifests.
  abbrev pub IsSnapshotAdded : ℕ → Source → Database Float → Database Float → Type 0
  IsSnapshotAdded job_id source db after =
      (manifest : List ManifestEntry) × (snapshot : BackupSnapshot Float) × (collect source
        ≡ ok manifest)
      × (after.snapshots ≡ db.snapshots ++ snapshot ∷ [])
      × (snapshot.id ≡ db.next_snapshot_id)
      × (snapshot.job_id ≡ job_id)
      × (snapshot.merkle_root ≡ root_hash sha256 (map sha256 (all_chunks manifest)))
      × (after.files ≡ db.files ++ sealed sha256 db.next_snapshot_id manifest)

  abbrev pub IsWhole : ℕ → Source → Database Float → Database Float → Type 0
  IsWhole job_id source db after = IsUntouched db after ⊎ IsSnapshotAdded job_id source db after

  -- What each way to end leaves, where `before` are the jobs before the task, and
  -- `jobs` those with this one as running.
  abbrev pub IsSettled :
      Clock
      → ℕ
      → Source
      → List BackupJob
      → List BackupJob
      → Database Float
      → Outcome
      → Database Float
      → Type 0
  IsSettled clock job_id source before jobs db returned after =
      (after.backup_jobs ≡ set_job job_id (to_completed clock.finished) jobs)
      × IsSnapshotAdded job_id source db after
  IsSettled clock job_id source before jobs db (retry e) after =
      (after.backup_jobs ≡ set_job job_id (to_failed e) jobs) × IsWhole job_id source db after
  IsSettled clock job_id source before jobs db (raised e) after =
      ((after.backup_jobs ≡ jobs) ⊎ (after.backup_jobs ≡ before)) × IsWhole job_id source db after

  fail-IsSettled :
      (clock : Clock) (faults : DbFaults) (job_id : ℕ) (source : Source) (e : TaskError)
      (before jobs : List BackupJob) (db left : Database Float) (cas : CasStore)
      → left.backup_jobs ≡ jobs
      → IsWhole job_id source db left
      → let (out, after, stored) = fail F env faults true job_id e left cas in
        IsSettled clock job_id source before jobs db out after
  unfolding fail
  fail-IsSettled clock faults job_id source e before jobs db left cas same whole =
      elim (Bool-cases faults.handler_fails) [
        | inl fails_too ↦ rw (fails_too, fail) (inl same, whole)
        | inr works ↦ rw (works, fail) (ap (set_job job_id (to_failed e)) same, whole)
      ]

  persist-IsSnapshotAdded :
      (now job_id source_id : ℕ) (source : Source) (backup_type : BackupType)
      (manifest : List ManifestEntry) (rows : List (ChunkRow Float)) (db : Database Float)
      → collect source ≡ ok manifest
      → digests rows ≡ map sha256 (all_chunks manifest)
      → IsSnapshotAdded job_id source db
          (persist F env now job_id source_id backup_type manifest rows db)
  unfolding persist
  persist-IsSnapshotAdded now job_id source_id source backup_type manifest rows db reads hashes = (
    manifest,
    _,
    reads,
    refl,
    refl,
    refl,
    ap (root_hash sha256) hashes,
    ap (λ hs. db.files ++ snapshot_files db.next_snapshot_id hs 0 manifest) hashes
        ∙ ap (λ fs. db.files ++ fs) (snapshot_files-sealed sha256 db.next_snapshot_id manifest),
  )

  finish-IsSettled :
      (clock : Clock) (faults : DbFaults) (job_id source_id : ℕ) (source : Source)
      (backup_type : BackupType) (manifest : List ManifestEntry) (rows : List (ChunkRow Float))
      (before : List BackupJob) (db : Database Float) (cas : CasStore)
      → collect source ≡ ok manifest
      → digests rows ≡ map sha256 (all_chunks manifest)
      → let (out, after, stored) =
          finish F env clock faults true job_id source_id backup_type manifest rows db cas in
        IsSettled clock job_id source before db.backup_jobs db out after
  unfolding finish check complete detect
  finish-IsSettled clock faults job_id source_id source backup_type manifest rows before db cas
        reads hashes =
      let persisted = persist F env clock.created job_id source_id backup_type manifest rows db in
      let checked = check F env source_id manifest rows db.next_snapshot_id persisted in
      let added =
        persist-IsSnapshotAdded clock.created job_id source_id source backup_type manifest rows db
          reads hashes in
      let settled = λ (left : Database Float).
        fail-IsSettled clock faults job_id source database_error before db.backup_jobs db left
          cas in
      elim (Bool-cases (faults.fails comparing && compares backup_type)) [
        | inl a ↦ rw (a, finish) (settled db refl (inl (refl, refl, refl, refl)))
        | inr a ↦ elim (Bool-cases (faults.fails persisting)) [
          | inl b ↦ rw (a, b, finish) (settled db refl (inl (refl, refl, refl, refl)))
          | inr b ↦ elim (Bool-cases (faults.fails detecting)) [
            | inl c ↦ rw (a, b, c, finish) (settled persisted (unfold persist in refl) (inr added))
            | inr c ↦ elim (Bool-cases (faults.fails alerting)) [
              | inl d ↦
                  rw (a, b, c, d, finish) (settled persisted (unfold persist in refl) (inr added))
              | inr d ↦ elim (Bool-cases (faults.fails completing && true)) [
                | inl e ↦
                    rw (a, b, c, d, e, finish)
                      (settled checked (unfold persist in refl) (inr added))
                | inr e ↦ rw (a, b, c, d, e, finish) (unfold persist in refl, added)
              ]
            ]
          ]
        ]
      ]

  work-IsSettled :
      (clock : Clock) (faults : DbFaults) (io : ℕ → WriteOutcome) (job_id source_id : ℕ)
      (source : Source) (backup_type : BackupType) (before : List BackupJob) (db : Database Float)
      (cas : CasStore)
      → let (out, after, stored) =
          work F env clock faults io true job_id source_id source backup_type db cas in
        IsSettled clock job_id source before db.backup_jobs db out after
  unfolding work
  work-IsSettled clock faults io job_id source_id source backup_type before db cas =
      let untouched : IsWhole job_id source db db = inl (refl, refl, refl, refl) in
      let settled = λ (x : CasError) (store_after : CasStore).
        fail-IsSettled clock faults job_id source (cas_error x) before db.backup_jobs db db
          store_after refl untouched in
      elim (Result-cases (collect source)) [
        | inr (x, raises) ↦ rw (raises, work) (settled x cas)
        | inl (manifest, reads) ↦
            elim (Result-cases (store_chunks F env io 0 (all_chunks manifest) cas).0) [
              | inr (x, raises) ↦ rw (reads, raises, work) (settled x _)
              | inl (rows, returns) ↦
                  rw (reads, returns, work)
                    (finish-IsSettled clock faults job_id source_id source backup_type manifest rows
                      before db _ reads
                      (digests-store_chunks F env io 0 (all_chunks manifest) cas rows returns))
            ]
      ]

  -- Whatever reads, writes and statements of the database fail in a backup of an existing job: if
  -- the task returns, the job is completed, and a snapshot of the whole source is added, with its
  -- id, job, Merkle root and all its manifests. If it asks for another attempt, the job is failed
  -- with the exception; if an exception leaves it, the job is running, or as it was. In these two
  -- cases the tables about snapshots are as they were, or such a snapshot is added to them.
  pub run_backup-IsSettled :
      (clock : Clock) (faults : DbFaults) (io : ℕ → WriteOutcome) (job_id source_id : ℕ)
      (source : Source) (backup_type : BackupType) (job : BackupJob) (db : Database Float)
      (cas : CasStore)
      → get_job job_id db.backup_jobs ≡ some job
      → let (out, after, stored) =
          run_backup F env clock faults io job_id source_id source backup_type db cas in
        IsSettled clock job_id source db.backup_jobs
          (set_job job_id (to_running clock.started) db.backup_jobs)
          db
          out
          after
  unfolding run_backup start
  run_backup-IsSettled clock faults io job_id source_id source backup_type job db cas here =
      elim (Bool-cases (faults.fails starting)) [
        | inl at_once ↦ rw (at_once, run_backup) (inr refl, inl (refl, refl, refl, refl))
        | inr started ↦
            rw (started, here, run_backup)
              (work-IsSettled clock faults io job_id source_id source backup_type db.backup_jobs
                (start F env clock job_id db) cas)
      ]
