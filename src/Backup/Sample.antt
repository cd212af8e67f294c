-- ===== src/Backup/Sample.antt =====
-- A database with one job of each kind, and a directory with a file that can be read and one that
-- cannot, for the examples.
use backupos.Base.{ℕ, ◌≡◌, refl, inr, Option, none, some, [], ◌∷◌, List, Bytes, codes, bytes_beq}
use backupos.Chunker.{
  chunk_data, chunk_loop, chunk_end, scan, at_boundary, fast_forwarded, fast_forward_loop, roll,
  rolling_hash, seed_loop, pad_window,
}
use backupos.Cas.{WriteOutcome, written, write_fails}
use backupos.Cas.Sample.{tenths, sample_env}
use backupos.Models.{full, pending, BackupJob, RestoreJob, Database}
use backupos.Backup.{entry_of, all_chunks}
use backupos.Backup.Task.{Clock}
use backupos.Backup.Stored.{AllStorable}
use backupos.Backup.Manifest.{IsFresh}

abbrev pub sample_job : BackupJob
sample_job = record {
  id = 7;
  source_id = 1;
  celery_task_id = none;
  backup_type = full;
  status = pending;
  error_message = none;
  started_at = none;
  completed_at = none;
  created_at = 0;
}

abbrev pub sample_restore : RestoreJob
sample_restore = record {
  id = 3;
  source_id = 1;
  snapshot_id = 5;
  celery_task_id = none;
  restore_path = codes "out";
  status = pending;
  error_message = none;
  started_at = none;
  completed_at = none;
}

abbrev pub sample_db : Database ℕ
sample_db = record {
  backup_jobs = sample_job ∷ [];
  restore_jobs = sample_restore ∷ [];
  snapshots = [];
  chunks = [];
  files = [];
  policies = [];
  attachments = [];
  alerts = [];
  audit_logs = [];
  next_restore_id = 4;
  next_policy_id = 3;
  next_job_id = 8;
  next_snapshot_id = 5;
}

pub sample-IsFresh : IsFresh sample_db
sample-IsFresh = record { ids = tt; manifests = tt }

abbrev pub clock : Clock
clock = record { started = 100; created = 101; finished = 102 }

abbrev pub always : ℕ → WriteOutcome
always n = written

abbrev pub never : ℕ → WriteOutcome
never n = write_fails

abbrev pub text : Bytes
text = 104 ∷ 105 ∷ []

abbrev pub entries : List (Bytes × Option Bytes)
entries = (codes "a", some text) ∷ (codes "b", none) ∷ []

text_cut : chunk_data text ≡ text ∷ []
unfolding chunk_data chunk_loop chunk_end scan at_boundary fast_forwarded fast_forward_loop roll
    rolling_hash seed_loop pad_window
text_cut = refl

pub text-AllStorable : AllStorable tenths sample_env (all_chunks (entry_of (codes "a") text ∷ []))
unfolding entry_of bytes_beq chunk_data chunk_loop chunk_end scan at_boundary fast_forwarded
    fast_forward_loop roll rolling_hash seed_loop pad_window
text-AllStorable = (inr refl, tt)
