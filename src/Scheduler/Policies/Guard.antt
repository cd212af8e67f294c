-- ===== src/Scheduler/Policies/Guard.antt =====
-- The guard of the scheduler against two jobs of one source at a time.
use backupos.Base.{
  ℕ, ◌+◌, ◌*◌, ◌≤◌, ◌≡◌, refl, ap, subst, ◌∙◌, inl, inr, Bool, false, Option, none, some, List, [],
  ◌∷◌, ◌++◌, Bytes, nat_eq, ◌==◌, leb, arith, Bool-cases, Option-cases, if◌then◌else◌,
}
use backupos.Entropy.{FloatOps}
use backupos.Models.{BackupType, full, incremental, BackupJob, Database}
use backupos.Scheduler.{PolicyRow, policy_rows}
use backupos.Scheduler.Policies.{
  active_for, has_active_job, last_completed, to_dispatched, new_job, dispatch_backup,
  evaluate_since, evaluate_row, evaluate_rows, evaluate_all_policies,
}

-- The jobs of a source that wait or run.
unfoldable pub active_jobs : ℕ → List BackupJob → ℕ
active_jobs source_id [] = 0
active_jobs source_id (job ∷ jobs) =
    (if active_for source_id job then 1 else 0) + active_jobs source_id jobs

active_jobs-append :
    (source_id : ℕ) (jobs : List BackupJob) (job : BackupJob)
    → active_jobs source_id (jobs ++ job ∷ [])
      ≡ active_jobs source_id jobs + (if active_for source_id job then 1 else 0)
unfolding active_jobs
active_jobs-append source_id [] job = omega arith
active_jobs-append source_id (j ∷ jobs) job = omega (arith, active_jobs-append source_id jobs job)

no_active :
    (source_id : ℕ) (jobs : List BackupJob)
    → has_active_job source_id jobs ≡ false
    → active_jobs source_id jobs ≡ 0
unfolding active_jobs has_active_job
no_active source_id [] e = refl
no_active source_id (job ∷ jobs) e = ground (arith, no_active source_id jobs)

other_source :
    (n : ℕ) (job : BackupJob)
    → (job.source_id == n) ≡ false
    → ◌≡◌ {A = ℕ} (if active_for n job then 1 else 0) 0
other_source n job e = ground arith

one_or_none : (b : Bool) → (if b then 1 else 0) ≤ 1
one_or_none b = ground arith

module _ (F : FloatOps) (broker : ℕ → Option Bytes) where
  open F use {Float}

  dispatched_source :
      (task : Option Bytes) (job : BackupJob) → (to_dispatched task job).source_id ≡ job.source_id
  dispatched_source none job = refl
  dispatched_source (some task_id) job = refl

  dispatch-active :
      (now n source_id : ℕ) (backup_type : BackupType) (db : Database Float)
      → active_jobs n db.backup_jobs ≤ 1
      → has_active_job source_id db.backup_jobs ≡ false
      → active_jobs n (dispatch_backup F broker now source_id backup_type db).backup_jobs ≤ 1
  unfolding dispatch_backup new_job
  dispatch-active now n source_id backup_type db h idle =
      let job =
        to_dispatched (broker db.next_job_id)
          (new_job F broker now db.next_job_id source_id backup_type) in
      elim (Bool-cases (source_id == n)) [
        | inl same ↦
            let none_yet : active_jobs n db.backup_jobs ≡ 0 =
              subst (λ k. active_jobs k db.backup_jobs ≡ 0) ((nat_eq.same_iff source_id n).0 same)
                (no_active source_id db.backup_jobs idle) in
            omega (
              arith,
              active_jobs-append n db.backup_jobs job,
              none_yet,
              one_or_none (active_for n job),
            )
        | inr other ↦
            let apart : (job.source_id == n) ≡ false =
              ap (λ k. k == n)
                (dispatched_source (broker db.next_job_id)
                  (new_job F broker now db.next_job_id source_id backup_type))
              ∙ other in
            omega (arith, active_jobs-append n db.backup_jobs job, other_source n job apart)
      ]

  evaluate_row-active :
      (now n : ℕ) (row : PolicyRow Float) (db : Database Float)
      → active_jobs n db.backup_jobs ≤ 1
      → active_jobs n (evaluate_row F broker now row db).backup_jobs ≤ 1
  unfolding evaluate_row evaluate_since
  evaluate_row-active now n row db h =
      elim (Bool-cases (has_active_job row.source_id db.backup_jobs)) [
        | inl busy ↦ rw (busy, evaluate_row) h
        | inr idle ↦ elim (Option-cases (last_completed row.source_id db.backup_jobs)) [
          | inl first ↦
              rw (idle, first, evaluate_row) (dispatch-active now n row.source_id full db h idle)
          | inr (t, last) ↦
              rw (idle, last, evaluate_row)
                (elim (Bool-cases (leb (t + row.policy.frequency_minutes * 60) now)) [
                  | inl overdue ↦
                      rw overdue (dispatch-active now n row.source_id incremental db h idle)
                  | inr early ↦ rw early h
                ])
        ]
      ]

  evaluate_rows-active :
      (now n : ℕ) (rows : List (PolicyRow Float)) (db : Database Float)
      → active_jobs n db.backup_jobs ≤ 1
      → active_jobs n (evaluate_rows F broker now rows db).backup_jobs ≤ 1
  unfolding evaluate_rows
  evaluate_rows-active now n [] db h = h
  evaluate_rows-active now n (row ∷ rows) db h =
      evaluate_rows-active now n rows (evaluate_row F broker now row db)
        (evaluate_row-active now n row db h)

  -- A source that has at most one job waiting or running has at most one after a run of the
  -- evaluator, whatever policies it has and whichever dispatches fail.
  pub evaluate-active :
      (now n : ℕ) (db : Database Float)
      → active_jobs n db.backup_jobs ≤ 1
      → active_jobs n (evaluate_all_policies F broker now db).backup_jobs ≤ 1
  unfolding evaluate_all_policies
  evaluate-active now n db h = evaluate_rows-active now n (policy_rows db) db h
