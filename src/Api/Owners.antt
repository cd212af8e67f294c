-- ===== src/Api/Owners.antt =====
-- What a tenant can read and restore.
use backupos.Base.{
  ℕ, ◌≡◌, refl, sym, ap, subst, ◌∙◌, ◌⊎◌, inl, inr, Bool, true, ◌&&◌, Option, none, some, List, [],
  ◌∷◌, Bytes, nat_eq, ltb, ◌==◌, arith, Bool-cases, Option-cases,
}
use backupos.Models.{BackupSnapshot, RestoreJob, Database}
use backupos.Http.{answer_inj, failed_ne, answer}
use backupos.Backup.{latest}
use backupos.Snapshots.{DataSource, owns}
use backupos.Queries.{find_snapshot, choose_snapshot}
use backupos.Api.Restores.{restore_dispatched, restore_job, trigger_restore}

second_true : (a b : Bool) → (a && b) ≡ true → b ≡ true
second_true a b e = ground arith

restore_dispatched-parts :
    (task : Option Bytes) (job : RestoreJob)
    → ((restore_dispatched task job).snapshot_id ≡ job.snapshot_id)
      × ((restore_dispatched task job).source_id ≡ job.source_id)
restore_dispatched-parts none job = (refl, refl)
restore_dispatched-parts (some task_id) job = (refl, refl)

module _ {Float : Type 0} where
  -- The row stands in the table.
  abbrev pub Among : BackupSnapshot Float → List (BackupSnapshot Float) → Type 0
  Among s [] = ⊥
  Among s (t ∷ snapshots) = (s ≡ t) ⊎ Among s snapshots

  -- A row of the table that belongs to the source.
  abbrev pub IsOf : ℕ → List (BackupSnapshot Float) → BackupSnapshot Float → Type 0
  IsOf source_id snapshots s = (s.source_id ≡ source_id) × Among s snapshots

  found_here :
      (source_id : ℕ) (s t : BackupSnapshot Float) (snapshots : List (BackupSnapshot Float))
      → (t.source_id == source_id) ≡ true
      → some t ≡ some s
      → IsOf source_id (t ∷ snapshots) s
  found_here source_id s t snapshots mine e =
      let same : s ≡ t = cc e in
      (
        ap (λ (x : BackupSnapshot Float). x.source_id) same
            ∙ (nat_eq.same_iff t.source_id source_id).0 mine,
        inl same,
      )

  find_snapshot-IsOf :
      (n source_id : ℕ) (snapshots : List (BackupSnapshot Float)) (s : BackupSnapshot Float)
      → find_snapshot n source_id snapshots ≡ some s
      → IsOf source_id snapshots s
  unfolding find_snapshot
  find_snapshot-IsOf n source_id [] s e = absurd (cc e)
  find_snapshot-IsOf n source_id (t ∷ snapshots) s e =
      elim (Bool-cases (t.id == n && t.source_id == source_id)) [
        | inl here ↦
            found_here source_id s t snapshots (second_true (t.id == n) _ here) (rw here at e)
        | inr later ↦
            let (of, among) = find_snapshot-IsOf n source_id snapshots s (rw later at e) in
            (of, inr among)
      ]

  latest-IsOf :
      (source_id : ℕ) (snapshots : List (BackupSnapshot Float)) (s : BackupSnapshot Float)
      → latest source_id snapshots ≡ some s
      → IsOf source_id snapshots s
  unfolding latest
  latest-IsOf source_id [] s e = absurd (cc e)
  latest-IsOf source_id (t ∷ snapshots) s e = elim (Bool-cases (t.source_id == source_id)) [
    | inr other ↦
        let (of, among) = latest-IsOf source_id snapshots s (rw (other, latest) at e) in
        (of, inr among)
    | inl mine ↦ elim (Option-cases (latest source_id snapshots)) [
      | inl nothing ↦ found_here source_id s t snapshots mine (rw (mine, nothing, latest) at e)
      | inr (u, older) ↦ elim (Bool-cases (ltb t.created_at u.created_at)) [
        | inl later ↦
            let (of, among) =
              latest-IsOf source_id snapshots s (older ∙ rw (mine, older, later, latest) at e) in
            (of, inr among)
        | inr first ↦ found_here source_id s t snapshots mine (rw (mine, older, first, latest) at e)
      ]
    ]
  ]

  choose_snapshot-IsOf :
      (chosen : Option ℕ) (source_id : ℕ) (snapshots : List (BackupSnapshot Float))
      (s : BackupSnapshot Float)
      → choose_snapshot chosen source_id snapshots ≡ some s
      → IsOf source_id snapshots s
  unfolding choose_snapshot
  choose_snapshot-IsOf none source_id snapshots s e = latest-IsOf source_id snapshots s e
  choose_snapshot-IsOf (some n) source_id snapshots s e = elim (Bool-cases (n == 0)) [
    | inl zero_id ↦ latest-IsOf source_id snapshots s (rw zero_id at e)
    | inr given ↦ find_snapshot-IsOf n source_id snapshots s (rw given at e)
  ]

  -- A restore that a tenant starts is one of its own: the source is the tenant's, the job is for
  -- that source, and its snapshot is a row of the table that belongs to the source.
  pub trigger_restore-owned :
      (cas_store_path : Bytes) (broker : ℕ → Option Bytes) (tenant_id source_id : ℕ)
      (sources : List DataSource) (chosen : Option ℕ) (restore_path : Option Bytes)
      (db : Database Float) (job : RestoreJob)
      → (trigger_restore cas_store_path broker tenant_id sources source_id chosen restore_path db).0
        ≡ answer job
      → (owns tenant_id job.source_id sources ≡ true)
        × ((s : BackupSnapshot Float) × (s.id ≡ job.snapshot_id)
            × IsOf job.source_id db.snapshots s)
  unfolding trigger_restore restore_job
  trigger_restore-owned cas_store_path broker tenant_id source_id sources chosen restore_path db job
        e =
      elim (Bool-cases (owns tenant_id source_id sources)) [
        | inr other ↦ absurd (failed_ne _ job (rw (other, trigger_restore) at e))
        | inl mine ↦ elim (Option-cases (choose_snapshot chosen source_id db.snapshots)) [
          | inl nothing ↦ absurd (failed_ne _ job (rw (mine, nothing, trigger_restore) at e))
          | inr (s, chosen_one) ↦
              let same = answer_inj _ job (rw (mine, chosen_one, trigger_restore) at e) in
              let parts = restore_dispatched-parts (broker db.next_restore_id) _ in
              let of_source : job.source_id ≡ source_id =
                ap (λ (j : RestoreJob). j.source_id) (sym same) ∙ parts.1 in
              (
                subst (λ k. owns tenant_id k sources ≡ true) (sym of_source) mine,
                (
                  s,
                  sym (ap (λ (j : RestoreJob). j.snapshot_id) (sym same) ∙ parts.0),
                  subst (λ k. IsOf k db.snapshots s) (sym of_source)
                      (choose_snapshot-IsOf chosen source_id db.snapshots s chosen_one),
                ),
              )
        ]
      ]
