-- ===== src/Snapshots/Locks.antt =====
-- A lock holds against the retention pruner.
use backupos.Base.{
  ℕ, ◌+◌, ◌<◌, ◌≡◌, sym, ap, subst, inl, inr, Bool, Option, none, some, List, [], ◌∷◌, nat_eq, ◌==◌,
  arith, Bool-cases, if◌then◌else◌,
}
use backupos.Cas.{CasStore}
use backupos.Models.{BackupSnapshot, Database}
use backupos.Restore.{get_snapshot}
use backupos.Scheduler.Retention.{days, prune_expired_snapshots}
use backupos.Scheduler.Integrity.{set_snapshot}
use backupos.Scheduler.Prune.{IsOnly, IsThere, prune-keeps_locked}
use backupos.Snapshots.{DataSource, owns, lock_until, get_owned_snapshot, set_lock, lock_snapshot}

module _ {Float : Type 0} where
  get_snapshot-set_snapshot :
      (until : Option ℕ) (n : ℕ) (snapshots : List (BackupSnapshot Float))
      (s : BackupSnapshot Float)
      → get_snapshot n snapshots ≡ some s
      → get_snapshot n (set_snapshot n (lock_until until) snapshots) ≡ some (lock_until until s)
  unfolding get_snapshot set_snapshot
  get_snapshot-set_snapshot until n [] s e = absurd (cc e)
  get_snapshot-set_snapshot until n (t ∷ snapshots) s e =
      ground (arith, get_snapshot-set_snapshot until n snapshots s)

  get_snapshot-id :
      (n : ℕ) (snapshots : List (BackupSnapshot Float)) (s : BackupSnapshot Float)
      → get_snapshot n snapshots ≡ some s
      → s.id ≡ n
  unfolding get_snapshot
  get_snapshot-id n [] s e = absurd (cc e)
  get_snapshot-id n (t ∷ snapshots) s e = ground (arith, get_snapshot-id n snapshots s)

  set_snapshot-IsOnly :
      (until : Option ℕ) (s : BackupSnapshot Float) (snapshots : List (BackupSnapshot Float))
      → IsOnly s snapshots
      → IsOnly (lock_until until s) (set_snapshot s.id (lock_until until) snapshots)
  unfolding set_snapshot
  set_snapshot-IsOnly until s [] h = tt
  set_snapshot-IsOnly until s (t ∷ snapshots) h = elim (Bool-cases (t.id == s.id)) [
    | inl e ↦ rw e (
      λ same. ap (lock_until until) (h.0 ((nat_eq.same_iff t.id s.id).0 e)),
      set_snapshot-IsOnly until s snapshots h.1,
    )
    | inr e ↦
        rw e (λ same. absurd (ground (arith, e, same)), set_snapshot-IsOnly until s snapshots h.1)
  ]

  owned_if : (b : Bool) (t s : BackupSnapshot Float) → (if b then some t else none) ≡ some s → t ≡ s
  owned_if b t s e = ground arith

  owned_of :
      (o : Option (BackupSnapshot Float)) (mine : BackupSnapshot Float → Bool)
      (s : BackupSnapshot Float)
      → (elim o [ none ↦ none | some t ↦ if mine t then some t else none ]) ≡ some s
      → o ≡ some s
  owned_of none mine s e = absurd (cc e)
  owned_of (some t) mine s e = ap some (owned_if (mine t) t s e)

  owned-found :
      (tenant_id : ℕ) (sources : List DataSource) (n : ℕ) (db : Database Float)
      (s : BackupSnapshot Float)
      → get_owned_snapshot tenant_id sources n db ≡ some s
      → get_snapshot n db.snapshots ≡ some s
  unfolding get_owned_snapshot
  owned-found tenant_id sources n db s e =
      owned_of (get_snapshot n db.snapshots) (λ t. owns tenant_id t.source_id sources) s e

  -- A snapshot that its tenant locks for some days is kept by each run of the pruner before the
  -- days are over, whatever the policies say.
  pub lock-prune :
      (tenant_id : ℕ) (sources : List DataSource) (foreign_keys : Bool) (now later lock_days n : ℕ)
      (s : BackupSnapshot Float) (db : Database Float) (cas : CasStore)
      → get_owned_snapshot tenant_id sources n db ≡ some s
      → IsOnly s db.snapshots
      → later < now + days lock_days
      → let (answer, locked) = lock_snapshot tenant_id sources now lock_days n db in
        get_snapshot n (prune_expired_snapshots foreign_keys later locked cas).0.snapshots ≡ answer
  unfolding lock_snapshot set_lock
  lock-prune tenant_id sources foreign_keys now later lock_days n s db cas owned only early =
      let until = some (now + days lock_days) in
      let here = owned-found tenant_id sources n db s owned in
      let same = get_snapshot-id n db.snapshots s here in
      let locked = set_snapshot n (lock_until until) db.snapshots in
      let there : IsThere (lock_until until s) (record db { snapshots = locked }) = record {
        found =
            subst (λ k. get_snapshot k locked ≡ some (lock_until until s)) (sym same)
              (get_snapshot-set_snapshot until n db.snapshots s here);
        only =
            subst
              (λ k. IsOnly (lock_until until s) (set_snapshot k (lock_until until) db.snapshots))
              same (set_snapshot-IsOnly until s db.snapshots only);
      } in
      rw (owned, set_lock)
        (subst
          (λ k.
            get_snapshot k
              (prune_expired_snapshots foreign_keys later (record db { snapshots = locked })
                cas).0.snapshots
            ≡ some (lock_until until s))
          same
          (prune-keeps_locked foreign_keys later (lock_until until s)
            (record db { snapshots = locked }) cas (ground (arith, early)) there))
