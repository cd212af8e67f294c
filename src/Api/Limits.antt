-- ===== src/Api/Limits.antt =====
-- How many backups a tenant can start.
use backupos.Base.{
  ℕ, ◌+◌, ◌*◌, ◌≤◌, ◌<◌, ◌≡◌, refl, ap, inl, inr, Option, some, List, [], ◌∷◌, map, Bytes, nat_eq,
  beq_refl, length, length-append, All, arith, Bool-cases, Option-cases, if◌then◌else◌,
}
use backupos.Entropy.{FloatOps}
use backupos.Models.{BackupType, Database}
use backupos.RateLimit.{Redis, up, enforce_rate_limit}
use backupos.RateLimit.Window.{
  Window, IsOpen, is_admitted, window_entry, times_of, answers, admissions, answers_bound,
}
use backupos.Snapshots.{DataSource, owns}
use backupos.Api.Backups.{log_event, triggered, add_job, trigger_owned, trigger_backup}

-- A request of `trigger_backup`, at a time.
pub record Request : Type 0 where
  pub now : ℕ
  pub source_id : ℕ
  pub backup_type : BackupType

abbrev pub arrivals : ℕ → List Request → List (ℕ × ℕ)
arrivals tenant_id [] = []
arrivals tenant_id (r ∷ requests) = (r.now, tenant_id) ∷ arrivals tenant_id requests

module _ (F : FloatOps) (broker : ℕ → Option Bytes) (R : Redis) where
  open F use {Float}
  open R use {State, entry}

  -- The requests of one tenant, one after the other.
  unfoldable pub serve :
      ℕ → ℕ → List DataSource → List Request → Database Float → State → Database Float × State
  serve rpm tenant_id sources [] db s = (db, s)
  serve rpm tenant_id sources (r ∷ requests) db s =
      let ((response, after), left) =
        trigger_backup F broker R (some rpm) up r.now tenant_id sources r.source_id r.backup_type db
          s in
      serve rpm tenant_id sources requests after left

  trigger_owned-length :
      (now tenant_id : ℕ) (sources : List DataSource) (source_id : ℕ) (backup_type : BackupType)
      (db : Database Float)
      → length (trigger_owned F broker now tenant_id sources source_id backup_type db).1.backup_jobs
        ≤ length db.backup_jobs + 1
  unfolding trigger_owned add_job log_event
  trigger_owned-length now tenant_id sources source_id backup_type db =
      elim (Bool-cases (owns tenant_id source_id sources)) [
        | inl mine ↦ rw mine (
            omega (
              arith,
              length-append db.backup_jobs (triggered F broker now source_id backup_type db ∷ []),
            ))
        | inr other ↦ rw other (omega arith)
      ]

  trigger-length :
      (rpm tenant_id : ℕ) (sources : List DataSource) (r : Request) (db : Database Float)
      (s : State)
      → length
          (trigger_backup F broker R
            (some rpm)
            up
            r.now
            tenant_id
            sources
            r.source_id
            r.backup_type
            db
            s).0.1.backup_jobs
        ≤ length db.backup_jobs
          + (if is_admitted (enforce_rate_limit R (some rpm) up r.now tenant_id s).0 then 1 else 0)
  unfolding trigger_backup
  trigger-length rpm tenant_id sources r db s =
      elim (Option-cases (enforce_rate_limit R (some rpm) up r.now tenant_id s).0) [
        | inl free ↦
            rw (free, trigger_backup)
              (trigger_owned-length r.now tenant_id sources r.source_id r.backup_type db)
        | inr (status, refused) ↦ rw (refused, trigger_backup) (omega arith)
      ]

  serve-length :
      (rpm tenant_id : ℕ) (sources : List DataSource) (requests : List Request)
      (db : Database Float) (s : State)
      → length (serve rpm tenant_id sources requests db s).0.backup_jobs
        ≤ length db.backup_jobs
          + admissions (answers R rpm tenant_id (arrivals tenant_id requests) s)
  unfolding serve answers admissions trigger_backup enforce_rate_limit
  serve-length rpm tenant_id sources [] db s = omega arith
  serve-length rpm tenant_id sources (r ∷ requests) db s =
      let run =
        trigger_backup F broker R (some rpm) up r.now tenant_id sources r.source_id r.backup_type db
          s in
      let rest : length (serve rpm tenant_id sources requests run.0.1 run.1).0.backup_jobs
          ≤ length run.0.1.backup_jobs
            + admissions (answers R rpm tenant_id (arrivals tenant_id requests) run.1) =
        serve-length rpm tenant_id sources requests run.0.1 run.1 in
      rw (beq_refl tenant_id) (omega (arith, rest, trigger-length rpm tenant_id sources r db s))

  times_of-arrivals :
      (tenant_id : ℕ) (requests : List Request)
      → times_of tenant_id (arrivals tenant_id requests) ≡ map (λ (r : Request). r.now) requests
  unfolding times_of
  times_of-arrivals tenant_id [] = refl
  times_of-arrivals tenant_id (r ∷ requests) =
      rw (beq_refl tenant_id) (ap (λ ts. r.now ∷ ts) (times_of-arrivals tenant_id requests))

  -- However many backups a tenant asks for within 60 seconds, with Redis up at most twice the
  -- limit of jobs are added, if the tenant's key is not there before or has its deadline.
  pub serve_bound :
      (rpm tenant_id a : ℕ) (sources : List DataSource) (requests : List Request)
      (db : Database Float) (s : State) (w : Option Window)
      → entry s tenant_id ≡ window_entry w
      → IsOpen w
      → All (λ t. (a ≤ t) × (t < a + 60)) (map (λ (r : Request). r.now) requests)
      → length (serve rpm tenant_id sources requests db s).0.backup_jobs
        ≤ length db.backup_jobs + 2 * rpm
  serve_bound rpm tenant_id a sources requests db s w e open_window span =
      let times = times_of-arrivals tenant_id requests in
      let bound =
        answers_bound R rpm tenant_id a (arrivals tenant_id requests) s w e open_window
          (rw times span) in
      omega (arith, bound, serve-length rpm tenant_id sources requests db s)
