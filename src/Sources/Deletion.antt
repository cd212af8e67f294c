-- ===== src/Sources/Deletion.antt =====
-- What is left after a source is deleted.
use backupos.Base.{ℕ, ◌≡◌, ◌≢◌, some, List, nat_eq, All}
use backupos.Models.{BackupJob, BackupSnapshot}
use backupos.Backup.{get_job}

module _ {Float : Type 0} where
  -- The job of each snapshot is there, and has the source of the snapshot.
  abbrev pub IsOfJobs : List BackupJob → List (BackupSnapshot Float) → Type 0
  IsOfJobs jobs = All (λ (s : BackupSnapshot Float).
      (job : BackupJob) × (get_job s.job_id jobs ≡ some job) × (job.source_id ≡ s.source_id))

  abbrev pub IsWithout : ℕ → List (BackupSnapshot Float) → Type 0
  IsWithout n = All (λ (s : BackupSnapshot Float). s.source_id ≢ n)
