-- ===== src/Backup/Task.antt =====
-- app/workers/backup_worker.py: `run_backup` from end to end.
use backupos.Base.{ℕ, Bool, true, false, ◌&&◌, none, some, List, nat_eq, ◌==◌, if◌then◌else◌}
use backupos.Entropy.{FloatOps}
use backupos.Cas.{CasEnv, CasStore, ok, err, WriteOutcome}
use backupos.Models.{BackupType, full, incremental, TaskError, cas_error, database_error, Database}
use backupos.Backup.{
  Source, ManifestEntry, ChunkRow, Outcome, returned, retry, raised, collect, all_chunks, get_job,
  set_job, to_running, to_completed, to_failed, total_of, dedup_of,
}
use backupos.Backup.Steps.{store_chunks, persist, average_of}
use backupos.Backup.Alerts.{detect}

-- `now` is the reading of the clock at the start, at the snapshot and at the end.
pub record Clock : Type 0 where
  pub started : ℕ
  pub created : ℕ
  pub finished : ℕ

-- The statements of the task that may raise: the query and the commit of step 1, the queries of
-- step 4, the flush and the commit of step 6, the query of step 7 for recent snapshots, its
-- commit, and step 8.
pub data Stage : Type 0 where
  starting comparing persisting detecting alerting completing : Stage

-- Which statements raise, the handler's own included. SQLAlchemy discards what a flush or a commit
-- that raises has not committed; a session that then asks for a rollback fails in the handler,
-- which makes none. The query of the policy, which has a handler of its own, does not raise here.
pub record DbFaults : Type 0 where
  pub fails : Stage → Bool
  pub handler_fails : Bool

abbrev pub no_faults : DbFaults
no_faults = record { fails = λ stage. false; handler_fails = false }

-- A full backup makes no query in step 4.
abbrev pub compares : BackupType → Bool
compares full = false
compares incremental = true

module _ (F : FloatOps) (env : CasEnv F) where
  open F use {Float}

  -- The `except` branch, over what is committed.
  unfoldable pub fail :
      DbFaults
      → Bool
      → ℕ
      → TaskError
      → Database Float
      → CasStore
      → Outcome × Database Float × CasStore
  fail faults has_job job_id e db cas =
      if has_job
      then if faults.handler_fails
        then (raised database_error, db, cas)
        else (retry e, record db { backup_jobs = set_job job_id (to_failed e) db.backup_jobs }, cas)
      else (retry e, db, cas)

  unfoldable pub check :
      ℕ → List ManifestEntry → List (ChunkRow Float) → ℕ → Database Float → Database Float
  check source_id manifest rows snapshot_id persisted =
      detect F snapshot_id source_id (average_of F env rows) (total_of rows) (dedup_of rows)
        (all_chunks manifest) persisted

  unfoldable pub complete : Clock → ℕ → Database Float → Database Float
  complete clock job_id checked = record checked {
    backup_jobs = set_job job_id (to_completed clock.finished) checked.backup_jobs;
  }

  -- Steps 4 to 8. What a statement that raises leaves is what is committed before it.
  unfoldable pub finish :
      Clock
      → DbFaults
      → Bool
      → ℕ
      → ℕ
      → BackupType
      → List ManifestEntry
      → List (ChunkRow Float)
      → Database Float
      → CasStore
      → Outcome × Database Float × CasStore
  finish clock faults has_job job_id source_id backup_type manifest rows db cas =
      let fail_at = λ (left : Database Float). fail faults has_job job_id database_error left cas in
      let persisted = persist F env clock.created job_id source_id backup_type manifest rows db in
      let checked = check source_id manifest rows db.next_snapshot_id persisted in
      if faults.fails comparing && compares backup_type
      then fail_at db
      else if faults.fails persisting
      then fail_at db
      else if faults.fails detecting
      then fail_at persisted
      else if faults.fails alerting
      then fail_at persisted
      else if faults.fails completing && has_job
      then fail_at checked
      else (returned, if has_job then complete clock job_id checked else checked, cas)

  unfoldable pub start : Clock → ℕ → Database Float → Database Float
  start clock job_id db = record db {
    backup_jobs = set_job job_id (to_running clock.started) db.backup_jobs;
  }

  -- The `try` block and its handler.
  unfoldable pub work :
      Clock
      → DbFaults
      → (ℕ → WriteOutcome)
      → Bool
      → ℕ
      → ℕ
      → Source
      → BackupType
      → Database Float
      → CasStore
      → Outcome × Database Float × CasStore
  work clock faults io has_job job_id source_id source backup_type db cas = elim (collect source) [
    | err e ↦ fail faults has_job job_id (cas_error e) db cas
    | ok manifest ↦
        let (stored, after) = store_chunks F env io 0 (all_chunks manifest) cas in
        elim stored [
          | err e ↦ fail faults has_job job_id (cas_error e) db after
          | ok rows ↦
              finish clock faults has_job job_id source_id backup_type manifest rows db after
        ]
  ]

  unfoldable pub run_backup :
      Clock
      → DbFaults
      → (ℕ → WriteOutcome)
      → ℕ
      → ℕ
      → Source
      → BackupType
      → Database Float
      → CasStore
      → Outcome × Database Float × CasStore
  run_backup clock faults io job_id source_id source backup_type db cas =
      if faults.fails starting
      then (raised database_error, db, cas)
      else elim (get_job job_id db.backup_jobs) [
        | none ↦
            if job_id == 0
            then work clock faults io false job_id source_id source backup_type db cas
            else (returned, db, cas)
        | some job ↦
            work clock faults io true job_id source_id source backup_type (start clock job_id db)
              cas
      ]
