-- ===== src/Api/Backups.antt =====
-- app/api/backups.py: starting a backup, the history of a source and its recovery metrics. A
-- quotient of floats is left as its two terms where the code only rounds it. `broker` answers as in
-- the scheduler.

pub mod Sampling
pub mod Synthesis
use backupos.Base.{
  ℕ, ◌+◌, ◌-◌, ◌*◌, Bool, false, Option, none, some, List, [], ◌∷◌, ◌++◌, Bytes, codes, nat_eq, ltb,
  ◌==◌, take, drop, if◌then◌else◌,
}
use backupos.Entropy.{FloatOps}
use backupos.Models.{BackupType, BackupJob, BackupSnapshot, BackupPolicy, Database}
use backupos.Http.{Response, answer, failed_with, not_found}
use backupos.RateLimit.{Redis, Network, enforce_rate_limit}
use backupos.Backup.{get_job, latest}
use backupos.Backup.Alerts.{by_newest, policy_of}
use backupos.Scheduler.Policies.{new_job, to_dispatched, last_completed}
use backupos.Snapshots.{DataSource, owns}
use backupos.Queries.{if_owned}

-- `log_event`: the entry is added to the session, and committed by the handler.
unfoldable pub log_event :
    {Float : Type 0} → ℕ → Bytes → Bytes → Option ℕ → Database Float → Database Float
log_event tenant_id event_type resource_type resource_id db = record db {
  audit_logs =
      db.audit_logs
      ++ record {
        tenant_id = tenant_id;
        event_type = event_type;
        resource_type = resource_type;
        resource_id = resource_id;
      }
        ∷ [];
}

module _ (F : FloatOps) (broker : ℕ → Option Bytes) where
  open F use {Float}

  -- The job that is created, as the broker leaves it.
  unfoldable pub triggered : ℕ → ℕ → BackupType → Database Float → BackupJob
  triggered now source_id backup_type db =
      to_dispatched (broker db.next_job_id)
        (new_job F broker now db.next_job_id source_id backup_type)

  unfoldable pub add_job : ℕ → ℕ → ℕ → BackupType → Database Float → Database Float
  add_job now tenant_id source_id backup_type db =
      log_event tenant_id (codes "backup.triggered") (codes "BackupJob") none (record db {
        backup_jobs = db.backup_jobs ++ triggered now source_id backup_type db ∷ [];
        next_job_id = db.next_job_id + 1;
      })

  -- Past the rate limit.
  unfoldable pub trigger_owned :
      ℕ
      → ℕ
      → List DataSource
      → ℕ
      → BackupType
      → Database Float
      → Response BackupJob × Database Float
  trigger_owned now tenant_id sources source_id backup_type db =
      if owns tenant_id source_id sources
      then (
        answer (triggered now source_id backup_type db),
        add_job now tenant_id source_id backup_type db,
      )
      else (failed_with not_found, db)

  module _ (R : Redis) where
    open R use {State}

    unfoldable pub trigger_backup :
        Option ℕ
        → Network
        → ℕ
        → ℕ
        → List DataSource
        → ℕ
        → BackupType
        → Database Float
        → State
        → (Response BackupJob × Database Float) × State
    trigger_backup limiter net now tenant_id sources source_id backup_type db redis =
        let (limited, after) = enforce_rate_limit R limiter net now tenant_id redis in
        (
          elim limited [
            | some status ↦ (failed_with status, db)
            | none ↦ trigger_owned now tenant_id sources source_id backup_type db
          ],
          after,
        )

-- `.order_by(BackupJob.created_at.desc())`
unfoldable pub insert_job : BackupJob → List BackupJob → List BackupJob
insert_job job [] = job ∷ []
insert_job job (j ∷ jobs) =
    let rest = insert_job job jobs in
    if ltb job.created_at j.created_at then j ∷ rest else job ∷ j ∷ jobs

-- The jobs whose source is the tenant's.
unfoldable pub jobs_of_tenant : ℕ → List DataSource → List BackupJob → List BackupJob
jobs_of_tenant tenant_id sources [] = []
jobs_of_tenant tenant_id sources (job ∷ jobs) =
    let rest = jobs_of_tenant tenant_id sources jobs in
    if owns tenant_id job.source_id sources then insert_job job rest else rest

unfoldable pub list_backups :
    {Float : Type 0} → ℕ → List DataSource → ℕ → ℕ → Database Float → Response (List BackupJob)
list_backups tenant_id sources skip limit db =
    answer (take limit (drop skip (jobs_of_tenant tenant_id sources db.backup_jobs)))

-- The answer is a job of a source of the tenant's.
unfoldable pub get_backup :
    {Float : Type 0} → ℕ → List DataSource → ℕ → Database Float → Response BackupJob
get_backup tenant_id sources job_id db = elim (get_job job_id db.backup_jobs) [
  | none ↦ failed_with not_found
  | some job ↦ if owns tenant_id job.source_id sources then answer job else failed_with not_found
]

-- `dedup_ratio` is the first number over the second, before it is rounded, or 0.0 without one.
pub record SnapshotResponse (Float : Type 0) : Type 0 where
  pub snapshot : BackupSnapshot Float
  pub dedup_ratio : Option (ℕ × ℕ)

module _ {Float : Type 0} where
  -- The difference is not negative: the second size sums a part of what the first does.
  unfoldable pub from_orm_with_ratio : BackupSnapshot Float → SnapshotResponse Float
  from_orm_with_ratio s = record {
    snapshot = s;
    dedup_ratio =
        if ltb 0 s.total_size_bytes
        then some (s.total_size_bytes - s.dedup_size_bytes, s.total_size_bytes)
        else none;
  }

  unfoldable pub responses : List (BackupSnapshot Float) → List (SnapshotResponse Float)
  responses [] = []
  responses (s ∷ snapshots) = from_orm_with_ratio s ∷ responses snapshots

  unfoldable pub source_history :
      ℕ → List DataSource → ℕ → ℕ → ℕ → Database Float → Response (List (SnapshotResponse Float))
  source_history tenant_id sources source_id skip limit db =
      if_owned tenant_id source_id sources
        (answer (responses (take limit (drop skip (by_newest source_id db.snapshots)))))

  -- `func.count(BackupSnapshot.id)`
  unfoldable pub count_of_source : ℕ → List (BackupSnapshot Float) → ℕ
  count_of_source source_id [] = 0
  count_of_source source_id (s ∷ snapshots) =
      (if s.source_id == source_id then 1 else 0) + count_of_source source_id snapshots

-- `current_rpo` is in seconds: the code divides it by 60. `estimated_rto_minutes` is the first
-- number over the second, before it is rounded.
pub record RecoveryMetrics : Type 0 where
  pub source_id : ℕ
  pub last_successful_backup : Option ℕ
  pub current_rpo : Option ℕ
  pub policy_rpo_minutes : Option ℕ
  pub rpo_violated : Bool
  pub estimated_rto_minutes : Option (ℕ × ℕ)
  pub total_snapshots : ℕ
  pub latest_snapshot_id : Option ℕ
  pub latest_merkle_root : Option Bytes

abbrev pub restore_bytes_per_minute : ℕ
restore_bytes_per_minute = 100 * 1024 * 1024

abbrev pub map_option {ℓ κ} : {A : Type ℓ} {B : Type κ} → (A → B) → Option A → Option B
map_option f none = none
map_option f (some a) = some (f a)

module _ {Float : Type 0} where
  -- `policy and current_rpo_minutes > policy.rpo_minutes`
  unfoldable pub is_violated : Option (BackupPolicy Float) → Option ℕ → Bool
  is_violated none elapsed = false
  is_violated (some policy) none = false
  is_violated (some policy) (some elapsed) = ltb (policy.rpo_minutes * 60) elapsed

  unfoldable pub rto_of : Option (BackupSnapshot Float) → Option (ℕ × ℕ)
  rto_of none = none
  rto_of (some s) =
      if ltb 0 s.total_size_bytes then some (s.total_size_bytes, restore_bytes_per_minute) else none

  unfoldable pub metrics_of : ℕ → ℕ → Database Float → RecoveryMetrics
  metrics_of now source_id db =
      let last = last_completed source_id db.backup_jobs in
      let newest = latest source_id db.snapshots in
      let policy = policy_of source_id db.policies db.attachments in
      let elapsed = map_option (λ (t : ℕ). now - t) last in
      record {
        source_id = source_id;
        last_successful_backup = last;
        current_rpo = elapsed;
        policy_rpo_minutes = map_option (λ (p : BackupPolicy Float). p.rpo_minutes) policy;
        rpo_violated = is_violated policy elapsed;
        estimated_rto_minutes = rto_of newest;
        total_snapshots = count_of_source source_id db.snapshots;
        latest_snapshot_id = map_option (λ (s : BackupSnapshot Float). s.id) newest;
        latest_merkle_root = map_option (λ (s : BackupSnapshot Float). s.merkle_root) newest;
      }

  unfoldable pub recovery_metrics :
      ℕ → ℕ → List DataSource → ℕ → Database Float → Response RecoveryMetrics
  recovery_metrics now tenant_id sources source_id db =
      if_owned tenant_id source_id sources (answer (metrics_of now source_id db))
