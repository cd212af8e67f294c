-- ===== src/Catalog/Newest.antt =====
-- The snapshots of a source that app/api/catalog.py goes through are all of them, the newest first.
use backupos.Base.{
  ℕ, ◌≤◌, List, [], ◌∷◌, nat_eq, ◌==◌, ltb, All, arith, if◌then◌else◌, inl, inr, Bool-cases,
}
use mathlib.Core.List.{Perm}
use mathlib.Core.List.Perm
use backupos.Models.{BackupSnapshot}
use backupos.Backup.Alerts.{insert_desc, by_newest}

module _ {Float : Type 0} where
  abbrev pub of_source : ℕ → List (BackupSnapshot Float) → List (BackupSnapshot Float)
  of_source source_id [] = []
  of_source source_id (s ∷ snapshots) =
      let rest = of_source source_id snapshots in
      if s.source_id == source_id then s ∷ rest else rest

  abbrev pub IsUpTo : ℕ → List (BackupSnapshot Float) → Type 0
  IsUpTo time = All (λ (s : BackupSnapshot Float). s.created_at ≤ time)

  abbrev pub IsNewestFirst : List (BackupSnapshot Float) → Type 0
  IsNewestFirst [] = Unit
  IsNewestFirst (s ∷ snapshots) = IsUpTo s.created_at snapshots × IsNewestFirst snapshots

  insert_desc-perm :
      (s : BackupSnapshot Float) (snapshots : List (BackupSnapshot Float))
      → Perm (insert_desc s snapshots) (s ∷ snapshots)
  unfolding insert_desc
  insert_desc-perm s [] = Perm.rfl
  insert_desc-perm s (t ∷ ts) = elim (Bool-cases (ltb s.created_at t.created_at)) [
    | inl older ↦
        rw (older, insert_desc)
          (Perm.trans (Perm.cons t (insert_desc-perm s ts)) (Perm.swap s t ts))
    | inr newer ↦ rw (newer, insert_desc) Perm.rfl
  ]

  IsUpTo-le :
      (m n : ℕ) (snapshots : List (BackupSnapshot Float))
      → m ≤ n
      → IsUpTo m snapshots
      → IsUpTo n snapshots
  IsUpTo-le m n [] h below = tt
  IsUpTo-le m n (s ∷ snapshots) h below =
      (omega (arith, below.0), IsUpTo-le m n snapshots h below.1)

  insert_desc-IsUpTo :
      (time : ℕ) (s : BackupSnapshot Float) (snapshots : List (BackupSnapshot Float))
      → s.created_at ≤ time
      → IsUpTo time snapshots
      → IsUpTo time (insert_desc s snapshots)
  unfolding insert_desc
  insert_desc-IsUpTo time s [] h below = (h, tt)
  insert_desc-IsUpTo time s (t ∷ ts) h below = elim (Bool-cases (ltb s.created_at t.created_at)) [
    | inl older ↦ rw (older, insert_desc) (below.0, insert_desc-IsUpTo time s ts h below.1)
    | inr newer ↦ rw (newer, insert_desc) (h, below)
  ]

  insert_desc-IsNewestFirst :
      (s : BackupSnapshot Float) (snapshots : List (BackupSnapshot Float))
      → IsNewestFirst snapshots
      → IsNewestFirst (insert_desc s snapshots)
  unfolding insert_desc
  insert_desc-IsNewestFirst s [] sorted = (tt, tt)
  insert_desc-IsNewestFirst s (t ∷ ts) sorted = elim (Bool-cases (ltb s.created_at t.created_at)) [
    | inl older ↦
        rw (older, insert_desc)
          (
            insert_desc-IsUpTo t.created_at s ts (ground (arith, older)) sorted.0,
            insert_desc-IsNewestFirst s ts sorted.1,
          )
    | inr newer ↦
        let ordered : t.created_at ≤ s.created_at = ground (arith, newer) in
        rw (newer, insert_desc)
          ((ordered, IsUpTo-le t.created_at s.created_at ts ordered sorted.0), sorted)
  ]

  pub by_newest-perm :
      (source_id : ℕ) (snapshots : List (BackupSnapshot Float))
      → Perm (by_newest source_id snapshots) (of_source source_id snapshots)
  unfolding by_newest
  by_newest-perm source_id [] = Perm.rfl
  by_newest-perm source_id (s ∷ snapshots) = elim (Bool-cases (s.source_id == source_id)) [
    | inl own ↦
        rw (own, by_newest)
          (Perm.trans (insert_desc-perm s (by_newest source_id snapshots))
            (Perm.cons s (by_newest-perm source_id snapshots)))
    | inr other ↦ rw (other, by_newest) (by_newest-perm source_id snapshots)
  ]

  pub by_newest-IsNewestFirst :
      (source_id : ℕ) (snapshots : List (BackupSnapshot Float))
      → IsNewestFirst (by_newest source_id snapshots)
  unfolding by_newest
  by_newest-IsNewestFirst source_id [] = tt
  by_newest-IsNewestFirst source_id (s ∷ snapshots) = elim (Bool-cases (s.source_id == source_id)) [
    | inl own ↦
        rw (own, by_newest)
          (insert_desc-IsNewestFirst s _ (by_newest-IsNewestFirst source_id snapshots))
    | inr other ↦ rw (other, by_newest) (by_newest-IsNewestFirst source_id snapshots)
  ]
