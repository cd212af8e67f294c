-- ===== src/Chain/Ids.antt =====
-- Which ids the queries for roots and children give, where ids are primary keys.
use backupos.Base.{
  ℕ, ◌+◌, ◌≤◌, ◌≡◌, refl, Bool, true, inl, inr, Option, none, some, List, [], ◌∷◌, ◌++◌, nat_eq,
  ◌==◌, All, All-imp, arith, Bool-cases, subst, eqb_iff, beq_refl, if◌then◌else◌,
}
use backupos.Models.{BackupSnapshot}
use backupos.Restore.{get_snapshot}
use backupos.Chain.{ids_where}

-- How often an id is in a list.
abbrev pub count : ℕ → List ℕ → ℕ
count n [] = 0
count n (m ∷ ms) = (if m == n then 1 else 0) + count n ms

pub count-append : (n : ℕ) (ms ks : List ℕ) → count n (ms ++ ks) ≡ count n ms + count n ks
count-append n [] ks = omega arith
count-append n (m ∷ ms) ks = omega (arith, count-append n ms ks)

module _ {Float : Type 0} where
  -- No two snapshots have the same id.
  abbrev pub UniqueIds : List (BackupSnapshot Float) → Type 0
  UniqueIds [] = Unit
  UniqueIds (s ∷ snapshots) = (get_snapshot s.id snapshots ≡ none) × UniqueIds snapshots

  pub ids_where-none :
      (test : Option ℕ → Bool) (n : ℕ) (snapshots : List (BackupSnapshot Float))
      → get_snapshot n snapshots ≡ none
      → count n (ids_where test snapshots) ≡ 0
  unfolding ids_where get_snapshot
  ids_where-none test n [] e = refl
  ids_where-none test n (s ∷ snapshots) e = ground (arith, ids_where-none test n snapshots)

  none-same :
      (n : ℕ) (s : BackupSnapshot Float) (snapshots : List (BackupSnapshot Float))
      → get_snapshot s.id snapshots ≡ none
      → (s.id == n) ≡ true
      → get_snapshot n snapshots ≡ none
  none-same n s snapshots e same =
      subst (λ k. get_snapshot k snapshots ≡ none) ((eqb_iff s.id n).0 same) e

  pub ids_where_once :
      (test : Option ℕ → Bool) (n : ℕ) (snapshots : List (BackupSnapshot Float))
      → UniqueIds snapshots
      → count n (ids_where test snapshots) ≤ 1
  unfolding ids_where
  ids_where_once test n [] u = omega arith
  ids_where_once test n (s ∷ snapshots) u = elim (Bool-cases (s.id == n)) [
    | inl same ↦
        let absent = none-same n s snapshots u.0 same in
        ground (arith, ids_where-none test n snapshots absent, same)
    | inr other ↦ ground (arith, ids_where_once test n snapshots u.1, other)
  ]

  -- An id among them is that of a row that passes the test.
  pub ids_where-found :
      (test : Option ℕ → Bool) (n : ℕ) (snapshots : List (BackupSnapshot Float))
      → UniqueIds snapshots
      → 1 ≤ count n (ids_where test snapshots)
      → (s : BackupSnapshot Float) × (get_snapshot n snapshots ≡ some s)
        × (test s.parent_snapshot_id ≡ true)
  unfolding ids_where get_snapshot
  ids_where-found test n [] u h = absurd (omega arith)
  ids_where-found test n (s ∷ snapshots) u h = elim (Bool-cases (s.id == n)) [
    | inr other ↦
        let (t, e, passes) = ids_where-found test n snapshots u.1 (ground (arith, h, other)) in
        (t, rw other e, passes)
    | inl same ↦ elim (Bool-cases (test s.parent_snapshot_id)) [
      | inl passes ↦ (s, rw same refl, passes)
      | inr fails ↦
          let absent = ids_where-none test n snapshots (none-same n s snapshots u.0 same) in
          absurd (ground (arith, h, fails, absent))
    ]
  ]

  pub found-ids_where :
      (test : Option ℕ → Bool) (n : ℕ) (snapshots : List (BackupSnapshot Float))
      (s : BackupSnapshot Float)
      → get_snapshot n snapshots ≡ some s
      → test s.parent_snapshot_id ≡ true
      → 1 ≤ count n (ids_where test snapshots)
  unfolding ids_where get_snapshot
  found-ids_where test n [] s e h = absurd (cc e)
  found-ids_where test n (t ∷ snapshots) s e h =
      ground (arith, found-ids_where test n snapshots s, e, h)

  later :
      (t s : BackupSnapshot Float) (snapshots : List (BackupSnapshot Float))
      → get_snapshot s.id snapshots ≡ none
      → get_snapshot t.id snapshots ≡ some t
      → get_snapshot t.id (s ∷ snapshots) ≡ some t
  unfolding get_snapshot
  later t s snapshots absent e = elim (Bool-cases (s.id == t.id)) [
    | inl same ↦ absurd (cc (none-same t.id s snapshots absent same, e))
    | inr other ↦ rw other e
  ]

  -- Each row is the one with its id.
  pub UniqueIds-All :
      (snapshots : List (BackupSnapshot Float))
      → UniqueIds snapshots
      → All (λ (s : BackupSnapshot Float). get_snapshot s.id snapshots ≡ some s) snapshots
  unfolding get_snapshot
  UniqueIds-All [] u = tt
  UniqueIds-All (s ∷ snapshots) u = (
    rw (beq_refl s.id) refl,
    All-imp (λ (t : BackupSnapshot Float). get_snapshot t.id snapshots ≡ some t)
        (λ (t : BackupSnapshot Float). get_snapshot t.id (s ∷ snapshots) ≡ some t) snapshots
        (λ t e. later t s snapshots u.0 e) (UniqueIds-All snapshots u.1),
  )
