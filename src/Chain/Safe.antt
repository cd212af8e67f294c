-- ===== src/Chain/Safe.antt =====
-- What the flag `safe_to_delete` promises.
use backupos.Base.{
  ℕ, ◌≤◌, ◌≡◌, refl, true, false, Option, none, some, List, [], ◌∷◌, nat_eq, length, arith,
}
use backupos.Models.{BackupSnapshot, Database}
use backupos.Scheduler.Retention.{
  is_locked, refers, parent_of, drop_snapshots, restored_by, delete_snapshot,
}
use backupos.Chain.{ids_where, has_parent, children_of, is_safe}

-- The ids start at 1, so that no parent is 0.
has_parent_lem : (o : Option ℕ) (n : ℕ) → 1 ≤ n → has_parent o n ≡ refers o n
has_parent_lem none n p = refl
has_parent_lem (some parent) n p = ground arith

module _ {Float : Type 0} where
  no_children :
      (n : ℕ) (snapshots : List (BackupSnapshot Float))
      → 1 ≤ n
      → length (children_of n snapshots) ≡ 0
      → parent_of n snapshots ≡ false
  unfolding ids_where
  no_children n [] p e = refl
  no_children n (s ∷ snapshots) p e =
      ground (arith, has_parent_lem s.parent_snapshot_id n p, no_children n snapshots p)

  parent_of-drop :
      (n k : ℕ) (snapshots : List (BackupSnapshot Float))
      → parent_of n snapshots ≡ false
      → parent_of n (drop_snapshots k snapshots) ≡ false
  parent_of-drop n k [] e = refl
  parent_of-drop n k (s ∷ snapshots) e = ground (arith, parent_of-drop n k snapshots)

  safe-parts :
      (now : ℕ) (snapshots : List (BackupSnapshot Float)) (s : BackupSnapshot Float)
      → is_safe now snapshots s ≡ true
      → (is_locked now s.locked_until ≡ false) × (length (children_of s.id snapshots) ≡ 0)
  unfolding is_safe
  safe-parts now snapshots s e = ground arith

  -- A snapshot that the graph of all snapshots calls safe is not locked, and a database with
  -- foreign keys deletes it, unless a restore job refers to it.
  pub safe-delete :
      (now : ℕ) (s : BackupSnapshot Float) (db : Database Float)
      → 1 ≤ s.id
      → is_safe now db.snapshots s ≡ true
      → restored_by s.id db.restore_jobs ≡ false
      → (is_locked now s.locked_until ≡ false)
        × (delete_snapshot true s.id db ≡ delete_snapshot false s.id db)
  unfolding delete_snapshot
  safe-delete now s db pos safe free =
      let parts = safe-parts now db.snapshots s safe in
      let orphan =
        parent_of-drop s.id s.id db.snapshots (no_children s.id db.snapshots pos parts.1) in
      (parts.0, rw (orphan, free) refl)
