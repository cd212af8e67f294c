-- ===== src/Restore/Whole.antt =====
-- A restore of a whole snapshot: the loop over its manifests, and what is made of its result.
use backupos.Base.{
  ℕ, ◌≡◌, ◌≢◌, refl, sym, ap, ◌∙◌, inl, inr, Bool, none, some, List, [], ◌∷◌, ◌++◌, append-nil,
  append_assoc, Bytes, bytes_eq, nat_eq, Option-cases,
}
use backupos.Base.Dict.{Dict}
use backupos.Entropy.{FloatOps}
use backupos.Merkle.{root_hash}
use backupos.Cas.{CasEnv, CasStore}
use backupos.Models.{BackupSnapshot, SnapshotFile, Database, RestoreJob, TaskError}
use backupos.Backup.{Outcome, returned, retry}
use backupos.Restore.{
  Attempt, value, raised, get_restore, restore_running, select_files, files_of, get_snapshot,
  restore_file, restore_files, restore_records,
}
use backupos.Restore.Task.{change_job, fail_restore, conclude, restore_snapshot, run_restore}
use backupos.Restore.EndToEnd.{root_matches-own}
use backupos.Scheduler.Integrity.{manifest_hashes}

value_injective : {A : Type 0} (a b : A) → value a ≡ value b → a ≡ b
value_injective a b e = cc

retry_ne : (e : TaskError) → retry e ≢ returned
retry_ne e h = cc

raised_ne : {A : Type 0} (e : TaskError) (a : A) → raised e ≢ value a
raised_ne e a h = cc

module _ (F : FloatOps) (env : CasEnv F) (writable : Bytes → Bool) where
  open F use {Float}
  open env use {sha256}

  -- A restore that reads all chunks reports the digests of the manifests.
  pub restore_files-hashes :
      (cas : CasStore) (files : List SnapshotFile) (hashes restored : List Bytes)
      (disk : Dict Bytes Bytes)
      → (restore_files F env writable cas files hashes disk).1 ≡ value restored
      → restored ≡ hashes ++ manifest_hashes files
  unfolding restore_files
  restore_files-hashes cas [] hashes restored disk e =
      sym (value_injective hashes restored e) ∙ sym (append-nil hashes)
  restore_files-hashes cas (f ∷ files) hashes restored disk e =
      elim (Option-cases (restore_file F env writable cas f.file_path f.chunk_hashes disk).1) [
        | inl fine ↦
            restore_files-hashes cas files (hashes ++ f.chunk_hashes) restored _
              (rw (fine, restore_files) at e)
            ∙ append_assoc hashes f.chunk_hashes (manifest_hashes files)
        | inr (stop, raises) ↦ absurd (raised_ne stop restored (rw (raises, restore_files) at e))
      ]

  -- What a restore of a whole snapshot comes to: the loop over its manifests, and its end.
  pub ended :
      ℕ
      → ℕ
      → BackupSnapshot Float
      → Database Float
      → Dict Bytes Bytes × Attempt (List Bytes)
      → (Outcome × Database Float) × Dict Bytes Bytes
  ended now job_id snapshot db (after, raised e) = (fail_restore F job_id e db, after)
  ended now job_id snapshot db (after, value hashes) =
      (conclude F env writable now job_id none snapshot hashes db, after)

  pub ended-disk :
      (now job_id : ℕ) (snapshot : BackupSnapshot Float) (db : Database Float)
      (r : Dict Bytes Bytes × Attempt (List Bytes))
      → (ended now job_id snapshot db r).1 ≡ r.0
  unfolding ended
  ended-disk now job_id snapshot db (after, raised e) = refl
  ended-disk now job_id snapshot db (after, value hashes) = refl

  -- The restore of the records that were read.
  selected :
      ℕ
      → ℕ
      → BackupSnapshot Float
      → List SnapshotFile
      → Database Float
      → CasStore
      → Dict Bytes Bytes
      → (Outcome × Database Float) × Dict Bytes Bytes
  selected now job_id snapshot rs db cas disk = elim (select_files snapshot.id none rs) [
    | raised e ↦ (fail_restore F job_id e db, disk)
    | value records ↦
        let (after, attempt) = restore_records F env writable cas snapshot.id records db disk in
        elim attempt [
          | raised e ↦ (fail_restore F job_id e db, after)
          | value hashes ↦ (conclude F env writable now job_id none snapshot hashes db, after)
        ]
  ]

  ended_lem :
      (now job_id : ℕ) (snapshot : BackupSnapshot Float) (db : Database Float)
      (r : Dict Bytes Bytes × Attempt (List Bytes))
      → (elim r.1 [
        | raised e ↦ (fail_restore F job_id e db, r.0)
        | value hashes ↦ (conclude F env writable now job_id none snapshot hashes db, r.0)
      ])
        ≡ ended now job_id snapshot db r
  unfolding ended
  ended_lem now job_id snapshot db (after, raised e) = refl
  ended_lem now job_id snapshot db (after, value hashes) = refl

  restore_snapshot-ended :
      (now job_id : ℕ) (snapshot : BackupSnapshot Float) (f : SnapshotFile)
      (files : List SnapshotFile) (db : Database Float) (cas : CasStore) (disk : Dict Bytes Bytes)
      → files_of snapshot.id db.files ≡ f ∷ files
      → restore_snapshot F env writable now job_id snapshot none db cas disk
        ≡ ended now job_id snapshot db (restore_files F env writable cas (f ∷ files) [] disk)
  unfolding restore_snapshot select_files restore_records selected
  restore_snapshot-ended now job_id snapshot f files db cas disk rows =
      ap (λ rs. selected now job_id snapshot rs db cas disk) rows
      ∙ ended_lem now job_id snapshot db (restore_files F env writable cas (f ∷ files) [] disk)

  pub run_restore-ended :
      (started finished job_id snapshot_id : ℕ) (snapshot : BackupSnapshot Float) (f : SnapshotFile)
      (files : List SnapshotFile) (job : RestoreJob) (db : Database Float) (cas : CasStore)
      (disk : Dict Bytes Bytes)
      → get_restore job_id db.restore_jobs ≡ some job
      → get_snapshot snapshot_id db.snapshots ≡ some snapshot
      → files_of snapshot.id db.files ≡ f ∷ files
      → run_restore F env writable started finished job_id snapshot_id none db cas disk
        ≡ ended finished job_id snapshot
            (change_job F job_id (restore_running started) db)
            (restore_files F env writable cas (f ∷ files) [] disk)
  unfolding run_restore
  run_restore-ended started finished job_id snapshot_id snapshot f files job db cas disk here found
        rows =
      rw (here, found, run_restore)
        (restore_snapshot-ended finished job_id snapshot f files
          (change_job F job_id (restore_running started) db) cas disk (unfold change_job in rows))

  -- Whether the restore returns depends on the root of the snapshot and on the digests alone.
  pub ended-returns :
      (now job_id : ℕ) (snapshot other : BackupSnapshot Float) (db after : Database Float)
      (files : List SnapshotFile) (r : Dict Bytes Bytes × Attempt (List Bytes))
      → ((hashes : List Bytes) → r.1 ≡ value hashes → hashes ≡ manifest_hashes files)
      → other.merkle_root ≡ root_hash sha256 (manifest_hashes files)
      → (ended now job_id snapshot db r).0.0 ≡ returned
      → (ended now job_id other after r).0.0 ≡ returned
  unfolding ended fail_restore conclude
  ended-returns now job_id snapshot other db after files (d, raised e) all root h =
      absurd (retry_ne e h)
  ended-returns now job_id snapshot other db after files (d, value hashes) all root h =
      rw
        (
          root_matches-own F env writable hashes other
              (root ∙ ap (root_hash sha256) (sym (all hashes refl))),
          conclude,
        )
        refl
