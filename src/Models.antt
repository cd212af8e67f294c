-- ===== src/Models.antt =====
-- app/models: the rows of the tables that the workers, the scheduler and the endpoints read and
-- write, and the database as one list of rows for each table, in the order of their ids. A time is
-- a number of seconds. `Float` is the type of Python's floats. Columns that no code reads back are
-- left out: most texts for people, and the creation times of other rows than snapshots and jobs. A
-- job is created at the time of its request: the readings of the clock for it are one here.
use backupos.Base.{ℕ, Bool, Option, List, Bytes}
use backupos.Cas.{CasError}

pub data JobStatus : Type 0 where
  pending running verifying completed failed : JobStatus

pub data BackupType : Type 0 where
  full incremental : BackupType

-- The exceptions that end a task. `error_message` holds the exception whose `str` the column has.
pub data TaskError : Type 0 where
  cas_error : CasError → TaskError
  snapshot_not_found : ℕ → TaskError
  file_not_in_snapshot : Bytes → ℕ → TaskError
  root_mismatch : ℕ → Bytes → TaskError
  cannot_write : Bytes → TaskError
  broker_unavailable : TaskError
  database_error : TaskError

pub record BackupJob : Type 0 where
  pub id : ℕ
  pub source_id : ℕ
  pub celery_task_id : Option Bytes
  pub backup_type : BackupType
  pub status : JobStatus
  pub error_message : Option TaskError
  pub started_at : Option ℕ
  pub completed_at : Option ℕ
  pub created_at : ℕ

pub record BackupSnapshot (Float : Type 0) : Type 0 where
  pub id : ℕ
  pub job_id : ℕ
  pub source_id : ℕ
  pub merkle_root : Bytes
  pub parent_snapshot_id : Option ℕ
  pub total_size_bytes : ℕ
  pub dedup_size_bytes : ℕ
  pub chunk_count : ℕ
  pub new_chunk_count : ℕ
  pub average_entropy : Float
  pub created_at : ℕ
  pub locked_until : Option ℕ
  pub last_verified_at : Option ℕ
  pub verification_status : Option Bytes

pub record BackupChunk (Float : Type 0) : Type 0 where
  pub snapshot_id : ℕ
  pub chunk_hash : Bytes
  pub size_bytes : ℕ
  pub compressed_size_bytes : ℕ
  pub entropy : Float
  pub is_new : Bool

-- `chunk_hashes` is what `get_chunk_hashes` reads back of what `encode_chunk_hashes` wrote.
pub record SnapshotFile : Type 0 where
  pub snapshot_id : ℕ
  pub file_path : Bytes
  pub file_size : ℕ
  pub chunk_hashes : List Bytes

pub record RestoreJob : Type 0 where
  pub id : ℕ
  pub source_id : ℕ
  pub snapshot_id : ℕ
  pub celery_task_id : Option Bytes
  pub restore_path : Bytes
  pub status : JobStatus
  pub error_message : Option TaskError
  pub started_at : Option ℕ
  pub completed_at : Option ℕ

-- `policy_yaml` is the text that the columns below it were read from.
pub record BackupPolicy (Float : Type 0) : Type 0 where
  pub id : ℕ
  pub tenant_id : ℕ
  pub name : Bytes
  pub description : Option Bytes
  pub policy_yaml : Bytes
  pub frequency_minutes : ℕ
  pub retention_days : ℕ
  pub rpo_minutes : ℕ
  pub require_checksum : Bool
  pub require_dedup : Bool
  pub entropy_threshold : Float
  pub is_active : Bool

pub record PolicyAttachment : Type 0 where
  pub policy_id : ℕ
  pub source_id : ℕ

pub data AlertType : Type 0 where
  entropy_spike backup_gap size_anomaly checksum_mismatch rpo_violation dedup_ratio_collapse :
      AlertType

pub data AlertSeverity : Type 0 where
  low medium high critical : AlertSeverity

pub record AnomalyAlert (Float : Type 0) : Type 0 where
  pub source_id : ℕ
  pub alert_type : AlertType
  pub severity : AlertSeverity
  pub metric_value : Float
  pub threshold_value : Float
  pub resolved : Bool

-- The resource that an entry of the audit log is about; the texts of the entry are left out.
pub record AuditLog : Type 0 where
  pub tenant_id : ℕ
  pub event_type : Bytes
  pub resource_type : Bytes
  pub resource_id : Option ℕ

-- `next_job_id` and the like are the sequences from which the primary keys are taken.
pub record Database (Float : Type 0) : Type 0 where
  pub backup_jobs : List BackupJob
  pub restore_jobs : List RestoreJob
  pub snapshots : List (BackupSnapshot Float)
  pub chunks : List (BackupChunk Float)
  pub files : List SnapshotFile
  pub policies : List (BackupPolicy Float)
  pub attachments : List PolicyAttachment
  pub alerts : List (AnomalyAlert Float)
  pub audit_logs : List AuditLog
  pub next_job_id : ℕ
  pub next_restore_id : ℕ
  pub next_policy_id : ℕ
  pub next_snapshot_id : ℕ
