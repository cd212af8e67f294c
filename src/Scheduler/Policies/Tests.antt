-- ===== src/Scheduler/Policies/Tests.antt =====
-- Runs of the evaluator on one source with two policies.
use backupos.Base.{ℕ, ◌≤◌, ◌≡◌, refl, true, none, some, Option, [], ◌∷◌, Bytes, codes, arith}
use backupos.Cas.Sample.{tenths}
use backupos.Models.{BackupPolicy, Database, pending, full}
use backupos.Backup.Alerts.{get_policy}
use backupos.Scheduler.{join_policies, policy_rows}
use backupos.Scheduler.Policies.{
  evaluate_all_policies, evaluate_rows, evaluate_row, dispatch_backup, new_job, has_active_job,
  last_completed,
}
use backupos.Scheduler.Policies.Guard.{active_jobs, evaluate-active}

abbrev hourly : ℕ → BackupPolicy ℕ
hourly n = record {
  id = n;
  tenant_id = 6;
  name = [];
  description = none;
  policy_yaml = [];
  frequency_minutes = 60;
  retention_days = 1;
  rpo_minutes = 60;
  require_checksum = true;
  require_dedup = true;
  entropy_threshold = 75;
  is_active = true;
}

abbrev two_policies : Database ℕ
two_policies = record {
  backup_jobs = [];
  restore_jobs = [];
  snapshots = [];
  chunks = [];
  files = [];
  policies = hourly 1 ∷ hourly 2 ∷ [];
  attachments =
      record { policy_id = 1; source_id = 4 } ∷ record { policy_id = 2; source_id = 4 } ∷ [];
  alerts = [];
  audit_logs = [];
  next_restore_id = 4;
  next_policy_id = 3;
  next_job_id = 9;
  next_snapshot_id = 3;
}

abbrev reachable : ℕ → Option Bytes
reachable job_id = some (codes "task")

one_job :
    (evaluate_all_policies tenths reachable 1000 two_policies).backup_jobs
    ≡ record {
      id = 9;
      source_id = 4;
      celery_task_id = some (codes "task");
      backup_type = full;
      status = pending;
      error_message = none;
      started_at = none;
      completed_at = none;
      created_at = 1000;
    }
      ∷ []
unfolding evaluate_all_policies evaluate_rows evaluate_row dispatch_backup new_job has_active_job
    last_completed get_policy join_policies policy_rows
one_job = refl

evaluate-active_example :
    active_jobs 4 (evaluate_all_policies tenths reachable 1000 two_policies).backup_jobs ≤ 1
unfolding active_jobs
evaluate-active_example = evaluate-active tenths reachable 1000 4 two_policies (omega arith)
