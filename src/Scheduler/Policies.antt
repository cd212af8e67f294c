-- ===== src/Scheduler/Policies.antt =====
-- app/core/scheduler.py: `evaluate_all_policies` and `_dispatch_backup`. `elapsed_minutes` is
-- compared in seconds, without the division by 60. `broker` is the task id that Celery gives to
-- the job with an id, or `none` where the broker cannot be reached.
pub mod Guard
mod Tests
use backupos.Base.{
  ℕ, ◌+◌, ◌-◌, ◌*◌, Bool, true, false, not, ◌&&◌, ◌||◌, Option, none, some, List, [], ◌∷◌, ◌++◌,
  Bytes, nat_eq, ltb, leb, ◌==◌, if◌then◌else◌,
}
use backupos.Entropy.{FloatOps}
use backupos.Models.{
  JobStatus, pending, running, verifying, completed, failed, BackupType, full, incremental,
  BackupJob, broker_unavailable, BackupPolicy, AnomalyAlert, rpo_violation, backup_gap, high,
  critical, Database,
}
use backupos.Backup.{set_job}
use backupos.Scheduler.{PolicyRow, policy_rows}

-- `status.in_([JobStatus.pending, JobStatus.running])`
abbrev pub is_active_status : JobStatus → Bool
is_active_status pending = true
is_active_status running = true
is_active_status verifying = false
is_active_status completed = false
is_active_status failed = false

abbrev pub is_completed : JobStatus → Bool
is_completed completed = true
is_completed _ = false

abbrev pub active_for : ℕ → BackupJob → Bool
active_for source_id job = job.source_id == source_id && is_active_status job.status

unfoldable pub has_active_job : ℕ → List BackupJob → Bool
has_active_job source_id [] = false
has_active_job source_id (job ∷ jobs) = active_for source_id job || has_active_job source_id jobs

-- The latest `completed_at` of the completed jobs of a source.
unfoldable pub last_completed : ℕ → List BackupJob → Option ℕ
last_completed source_id [] = none
last_completed source_id (job ∷ jobs) =
    let rest = last_completed source_id jobs in
    if job.source_id == source_id && is_completed job.status
    then elim job.completed_at [
      | none ↦ rest
      | some t ↦ elim rest [ none ↦ some t | some u ↦ if ltb t u then some u else some t ]
    ]
    else rest

-- `self.delay(...)` has given the job its task, or has raised.
abbrev pub to_dispatched : Option Bytes → BackupJob → BackupJob
to_dispatched (some task_id) job = record job { celery_task_id = some task_id }
to_dispatched none job = record job { status = failed; error_message = some broker_unavailable }

module _ (F : FloatOps) (broker : ℕ → Option Bytes) where
  open F use {Float, of_nat, div}

  unfoldable pub new_job : ℕ → ℕ → ℕ → BackupType → BackupJob
  new_job now job_id source_id backup_type = record {
    id = job_id;
    source_id = source_id;
    celery_task_id = none;
    backup_type = backup_type;
    status = pending;
    error_message = none;
    started_at = none;
    completed_at = none;
    created_at = now;
  }

  unfoldable pub dispatch_backup : ℕ → ℕ → BackupType → Database Float → Database Float
  dispatch_backup now source_id backup_type db =
      let job_id = db.next_job_id in
      record db {
        backup_jobs =
            db.backup_jobs
            ++ to_dispatched (broker job_id) (new_job now job_id source_id backup_type) ∷ [];
        next_job_id = job_id + 1;
      }

  abbrev pub alert_if : Bool → AnomalyAlert Float → List (AnomalyAlert Float)
  alert_if b alert = if b then alert ∷ [] else []

  -- `(now - completed_at).total_seconds() / 60`
  abbrev pub minutes : ℕ → Float
  minutes seconds = div (of_nat seconds) (of_nat 60)

  -- The alerts on a source whose last backup is so many seconds ago.
  unfoldable pub gap_alerts : PolicyRow Float → ℕ → List (AnomalyAlert Float)
  gap_alerts row elapsed =
      let rpo = row.policy.rpo_minutes in
      let gap = 3 * row.policy.frequency_minutes in
      alert_if (ltb (rpo * 60) elapsed) (record {
        source_id = row.source_id;
        alert_type = rpo_violation;
        severity = high;
        metric_value = minutes elapsed;
        threshold_value = of_nat rpo;
        resolved = false;
      })
      ++ alert_if (ltb (gap * 60) elapsed) (record {
        source_id = row.source_id;
        alert_type = backup_gap;
        severity = critical;
        metric_value = minutes elapsed;
        threshold_value = of_nat gap;
        resolved = false;
      })

  -- A source with a last backup; a time before it counts as no time.
  unfoldable pub evaluate_since : ℕ → PolicyRow Float → ℕ → Database Float → Database Float
  evaluate_since now row completed_at db =
      let due = leb (completed_at + row.policy.frequency_minutes * 60) now in
      let dispatched = if due then dispatch_backup now row.source_id incremental db else db in
      record dispatched { alerts = dispatched.alerts ++ gap_alerts row (now - completed_at) }

  unfoldable pub evaluate_row : ℕ → PolicyRow Float → Database Float → Database Float
  evaluate_row now row db =
      if has_active_job row.source_id db.backup_jobs
      then db
      else elim (last_completed row.source_id db.backup_jobs) [
        | none ↦ dispatch_backup now row.source_id full db
        | some completed_at ↦ evaluate_since now row completed_at db
      ]

  unfoldable pub evaluate_rows : ℕ → List (PolicyRow Float) → Database Float → Database Float
  evaluate_rows now [] db = db
  evaluate_rows now (row ∷ rows) db = evaluate_rows now rows (evaluate_row now row db)

  unfoldable pub evaluate_all_policies : ℕ → Database Float → Database Float
  evaluate_all_policies now db = evaluate_rows now (policy_rows db) db
