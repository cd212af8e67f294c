-- ===== src/Backup/Failure.antt =====
-- What `run_backup` leaves in the store, whatever read, write or statement of it fails.
use backupos.Base.{
  ℕ, ◌≡◌, inl, inr, Bool, true, false, List, Bytes, Bool-cases, Option-cases, ◌==◌, nat_eq, arith,
}
use backupos.Entropy.{FloatOps}
use backupos.Merkle.Collision.{IsCollisionFree}
use backupos.Cas.{CasEnv, CasStore, retrieve, Result-cases, ok, WriteOutcome}
use backupos.Cas.Decode.{IsZstd, IsFaithful}
use backupos.Models.{BackupType, Database, TaskError, cas_error}
use backupos.Backup.{Source, ManifestEntry, ChunkRow, collect, all_chunks, get_job}
use backupos.Backup.Steps.{store_chunks}
use backupos.Backup.Task.{Clock, DbFaults, starting, fail, finish, work, run_backup}
use backupos.Backup.Stored.{IsKept, AllStorable, store_chunks-IsFaithful, store_chunks-IsKept}

module _ (F : FloatOps) (env : CasEnv F) where
  open F use {Float}
  open env use {sha256, compress, decompress}

  -- The files of a source, where it can be read, hold no chunk that the store would not give back.
  abbrev pub SourceStorable : Source → Type 0
  SourceStorable source =
      (manifest : List ManifestEntry)
      → collect source ≡ ok manifest
      → AllStorable F env (all_chunks manifest)

  fail-store :
      (faults : DbFaults) (has_job : Bool) (job_id : ℕ) (e : TaskError) (db : Database Float)
      (cas : CasStore)
      → (fail F env faults has_job job_id e db cas).2 ≡ cas
  unfolding fail
  fail-store faults has_job job_id e db cas = ground arith

  finish-store :
      (clock : Clock) (faults : DbFaults) (has_job : Bool) (job_id source_id : ℕ)
      (backup_type : BackupType) (manifest : List ManifestEntry) (rows : List (ChunkRow Float))
      (db : Database Float) (cas : CasStore)
      → (finish F env clock faults has_job job_id source_id backup_type manifest rows db cas).2
        ≡ cas
  unfolding finish fail
  finish-store clock faults has_job job_id source_id backup_type manifest rows db cas = ground arith

  module _ (zstd : IsZstd compress decompress) (free : IsCollisionFree sha256) where
    abbrev Keeps : CasStore → CasStore → Type 0
    Keeps cas after = IsFaithful F env after × IsKept F env cas after

    work-Keeps :
        (clock : Clock) (faults : DbFaults) (io : ℕ → WriteOutcome) (has_job : Bool)
        (job_id source_id : ℕ) (source : Source) (backup_type : BackupType) (db : Database Float)
        (cas : CasStore)
        → IsFaithful F env cas
        → SourceStorable source
        → Keeps cas
            (work F env clock faults io has_job job_id source_id source backup_type db cas).2
    unfolding work
    work-Keeps clock faults io has_job job_id source_id source backup_type db cas faithful
          storable =
        elim (Result-cases (collect source)) [
          | inr (x, raises) ↦
              rw (raises, work, fail-store faults has_job job_id (cas_error x) db cas)
                (faithful, λ c found. found)
          | inl (manifest, reads) ↦
              let chunks = all_chunks manifest in
              let good = storable manifest reads in
              let keeps : Keeps cas (store_chunks F env io 0 chunks cas).1 = (
                store_chunks-IsFaithful F env zstd free io 0 chunks cas faithful good,
                store_chunks-IsKept F env zstd free io 0 chunks cas faithful good,
              ) in
              elim (Result-cases (store_chunks F env io 0 chunks cas).0) [
                | inr (x, failed_at) ↦
                    rw (reads, failed_at, work, fail-store faults has_job job_id (cas_error x) db _)
                      keeps
                | inl (rows, returns) ↦
                    rw
                      (
                        reads,
                        returns,
                        work,
                        finish-store clock faults has_job job_id source_id backup_type manifest rows
                            db _,
                      )
                      keeps
              ]
        ]

    run_backup-Keeps :
        (clock : Clock) (faults : DbFaults) (io : ℕ → WriteOutcome) (job_id source_id : ℕ)
        (source : Source) (backup_type : BackupType) (db : Database Float) (cas : CasStore)
        → IsFaithful F env cas
        → SourceStorable source
        → Keeps cas (run_backup F env clock faults io job_id source_id source backup_type db cas).2
    unfolding run_backup
    run_backup-Keeps clock faults io job_id source_id source backup_type db cas faithful storable =
        elim (Bool-cases (faults.fails starting)) [
          | inl at_once ↦ rw (at_once, run_backup) (faithful, λ c found. found)
          | inr started ↦ elim (Option-cases (get_job job_id db.backup_jobs)) [
            | inr (job, here) ↦
                rw (started, here, run_backup)
                  (work-Keeps clock faults io true job_id source_id source backup_type _ cas
                    faithful storable)
            | inl gone ↦ elim (Bool-cases (job_id == 0)) [
              | inl zero_id ↦
                  rw (started, gone, zero_id, run_backup)
                    (work-Keeps clock faults io false job_id source_id source backup_type db cas
                      faithful storable)
              | inr other ↦ rw (started, gone, other, run_backup) (faithful, λ c found. found)
            ]
          ]
        ]

    -- With a digest without collisions and the laws of zstandard, where every chunk in the store
    -- decodes to data of its digest and no chunk of the source is stored raw with the magic number
    -- of zstandard: however a backup ends, the store gives back all the data that it gave back
    -- before, and every chunk in it decodes to data of its digest.
    pub retrieve-run_backup :
        (clock : Clock) (faults : DbFaults) (io : ℕ → WriteOutcome) (job_id source_id : ℕ)
        (source : Source) (backup_type : BackupType) (db : Database Float) (cas : CasStore)
        (c : Bytes)
        → IsFaithful F env cas
        → SourceStorable source
        → retrieve F env (sha256 c) cas ≡ ok c
        → let (out, after, stored) =
            run_backup F env clock faults io job_id source_id source backup_type db cas in
          (retrieve F env (sha256 c) stored ≡ ok c) × IsFaithful F env stored
    retrieve-run_backup clock faults io job_id source_id source backup_type db cas c faithful
          storable found =
        let (still, kept) =
          run_backup-Keeps clock faults io job_id source_id source backup_type db cas faithful
            storable in
        (kept c found, still)
