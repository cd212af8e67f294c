-- ===== src/Scheduler/Prune.antt =====
-- Which snapshots `prune_expired_snapshots` keeps.
use backupos.Base.{
  ℕ, ◌+◌, ◌≡◌, ◌≢◌, refl, sym, ap, subst, ◌∙◌, inl, inr, Bool, true, false, ◌&&◌, ◌||◌, Option,
  none, some, List, [], ◌∷◌, nat_eq, ltb, ◌==◌, arith, All, Bool-cases, Option-cases, if◌then◌else◌,
}
use backupos.Cas.{CasStore}
use backupos.Models.{BackupSnapshot, Database}
use backupos.Backup.{latest}
use backupos.Restore.{get_snapshot}
use backupos.Scheduler.{PolicyRow, policy_rows}
use backupos.Scheduler.Retention.{
  is_locked, is_kept, days, drop_chunks, drop_snapshots, delete_snapshot, insert_asc, expired,
  prune_loop, id_of, prune_source, prune_rows, prune_expired_snapshots, refers,
}

true_ne_false : true ≢ false
true_ne_false e = ground arith

kept_or : (a b : Bool) → a ≡ true → (a || b) ≡ true
kept_or a b e = ground arith

kept_or_right : (a b : Bool) → b ≡ true → (a || b) ≡ true
kept_or_right a b e = ground arith

module _ {Float : Type 0} where
  -- The primary key: no other row has the snapshot's id.
  abbrev pub IsOnly : BackupSnapshot Float → List (BackupSnapshot Float) → Type 0
  IsOnly s snapshots = All (λ (t : BackupSnapshot Float). t.id ≡ s.id → t ≡ s) snapshots

  drop_snapshots-IsOnly :
      (s : BackupSnapshot Float) (k : ℕ) (snapshots : List (BackupSnapshot Float))
      → IsOnly s snapshots
      → IsOnly s (drop_snapshots k snapshots)
  drop_snapshots-IsOnly s k [] h = tt
  drop_snapshots-IsOnly s k (t ∷ snapshots) h = elim (Bool-cases (t.id == k)) [
    | inl e ↦ rw e (drop_snapshots-IsOnly s k snapshots h.1)
    | inr e ↦ rw e (h.0, drop_snapshots-IsOnly s k snapshots h.1)
  ]

  get_snapshot-drop :
      (n k : ℕ) (snapshots : List (BackupSnapshot Float))
      → (k == n) ≡ false
      → get_snapshot n (drop_snapshots k snapshots) ≡ get_snapshot n snapshots
  unfolding get_snapshot
  get_snapshot-drop n k [] e = refl
  get_snapshot-drop n k (t ∷ snapshots) e = ground (arith, get_snapshot-drop n k snapshots)

  insert_asc-All {ℓ} :
      (P : BackupSnapshot Float → Type ℓ) (s : BackupSnapshot Float)
      (ts : List (BackupSnapshot Float))
      → P s
      → All P ts
      → All P (insert_asc s ts)
  unfolding insert_asc
  insert_asc-All P s [] p h = (p, tt)
  insert_asc-All P s (t ∷ ts) p h = elim (Bool-cases (ltb t.created_at s.created_at)) [
    | inl e ↦ rw e (h.0, insert_asc-All P s ts p h.1)
    | inr e ↦ rw e (p, h)
  ]

  pub expired-All {ℓ} :
      (P : BackupSnapshot Float → Type ℓ) (now retention_days source_id : ℕ)
      (snapshots : List (BackupSnapshot Float))
      → All P snapshots
      → All P (expired now retention_days source_id snapshots)
  unfolding expired
  expired-All P now retention_days source_id [] h = tt
  expired-All P now retention_days source_id (s ∷ snapshots) h =
      elim (Bool-cases (s.source_id == source_id && ltb (s.created_at + days retention_days) now)) [
        | inl e ↦
            rw e
              (insert_asc-All P s _ h.0 (expired-All P now retention_days source_id snapshots h.1))
        | inr e ↦ rw e (expired-All P now retention_days source_id snapshots h.1)
      ]

  -- A database in which the snapshot is found under its id, and alone.
  pub record IsThere (s : BackupSnapshot Float) (db : Database Float) : Type 0 where
    pub found : get_snapshot s.id db.snapshots ≡ some s
    pub only : IsOnly s db.snapshots

  abbrev Kept : BackupSnapshot Float → Option (Database Float) → Type 0
  Kept s none = Unit
  Kept s (some db) = IsThere s db

  if_some : (b : Bool) (x d : Database Float) → (if b then none else some x) ≡ some d → x ≡ d
  if_some b x d e = ground arith

  -- A delete that does not raise takes the rows of the snapshot away.
  pub delete_snapshot-rows :
      (foreign_keys : Bool) (k : ℕ) (db d : Database Float)
      → delete_snapshot foreign_keys k db ≡ some d
      → (d.snapshots ≡ drop_snapshots k db.snapshots) × (d.chunks ≡ drop_chunks k db.chunks)
  unfolding delete_snapshot
  delete_snapshot-rows foreign_keys k db d e =
      let same = if_some _ _ d e in
      (
        ap (λ (x : Database Float). x.snapshots) (sym same),
        ap (λ (x : Database Float). x.chunks) (sym same),
      )

  delete-IsThere :
      (foreign_keys : Bool) (s : BackupSnapshot Float) (k : ℕ) (db d : Database Float)
      → (k == s.id) ≡ false
      → IsThere s db
      → delete_snapshot foreign_keys k db ≡ some d
      → IsThere s d
  delete-IsThere foreign_keys s k db d other there e =
      let rows = (delete_snapshot-rows foreign_keys k db d e).0 in
      record {
        found =
            ap (get_snapshot s.id) rows ∙ get_snapshot-drop s.id k db.snapshots other ∙ there.found;
        only = subst (IsOnly s) (sym rows) (drop_snapshots-IsOnly s k db.snapshots there.only);
      }

  not_same :
      (now : ℕ) (most_recent : Option ℕ) (s t : BackupSnapshot Float)
      → is_kept now most_recent s ≡ true
      → is_kept now most_recent t ≡ false
      → (t.id ≡ s.id → t ≡ s)
      → (t.id == s.id) ≡ false
  not_same now most_recent s t k n only = elim (Bool-cases (t.id == s.id)) [
    | inl e ↦ absurd (
        true_ne_false
          (sym k ∙ sym (ap (is_kept now most_recent) (only ((nat_eq.same_iff t.id s.id).0 e))) ∙ n))
    | inr e ↦ e
  ]

  prune_loop-Kept :
      (foreign_keys : Bool) (now : ℕ) (most_recent : Option ℕ) (s : BackupSnapshot Float)
      (ts : List (BackupSnapshot Float)) (db : Database Float) (cas : CasStore)
      → is_kept now most_recent s ≡ true
      → IsOnly s ts
      → IsThere s db
      → Kept s (prune_loop foreign_keys now most_recent ts db cas).0
  unfolding prune_loop
  prune_loop-Kept foreign_keys now most_recent s [] db cas k only there = there
  prune_loop-Kept foreign_keys now most_recent s (t ∷ ts) db cas k only there =
      elim (Bool-cases (is_kept now most_recent t)) [
        | inl e ↦
            rw (e, prune_loop)
              (prune_loop-Kept foreign_keys now most_recent s ts db cas k only.1 there)
        | inr e ↦ elim (Option-cases (delete_snapshot foreign_keys t.id db)) [
          | inl raises ↦ rw (e, raises, prune_loop) tt
          | inr (d, flushed) ↦
              rw (e, flushed, prune_loop)
                (prune_loop-Kept foreign_keys now most_recent s ts d _ k only.1 (
                  delete-IsThere foreign_keys s t.id db d (not_same now most_recent s t k e only.0)
                    there flushed))
        ]
      ]

  prune_source-Kept :
      (foreign_keys : Bool) (now : ℕ) (row : PolicyRow Float) (s : BackupSnapshot Float)
      (db : Database Float) (cas : CasStore)
      → is_kept now (id_of (latest row.source_id db.snapshots)) s ≡ true
      → IsThere s db
      → Kept s (prune_source foreign_keys now row db cas).0
  unfolding prune_source
  prune_source-Kept foreign_keys now row s db cas k there =
      prune_loop-Kept foreign_keys now _ s _ db cas k
        (expired-All _ now row.policy.retention_days row.source_id db.snapshots there.only) there

  refers_self :
      (latest_of : Option (BackupSnapshot Float)) (s : BackupSnapshot Float)
      → latest_of ≡ some s
      → refers (id_of latest_of) s.id ≡ true
  refers_self latest_of s e = ground arith

  found_after :
      (s : BackupSnapshot Float) (o : Option (Database Float)) (after : Database Float)
      → o ≡ some after
      → Kept s o
      → get_snapshot s.id after.snapshots ≡ some s
  found_after s o after e k = (subst (Kept s) e k).found

  -- Pruning the snapshots of a source keeps its most recent one, however old it is.
  pub prune_source-keeps_latest :
      (foreign_keys : Bool) (now : ℕ) (row : PolicyRow Float) (s : BackupSnapshot Float)
      (db after : Database Float) (cas : CasStore)
      → latest row.source_id db.snapshots ≡ some s
      → IsThere s db
      → (prune_source foreign_keys now row db cas).0 ≡ some after
      → get_snapshot s.id after.snapshots ≡ some s
  prune_source-keeps_latest foreign_keys now row s db after cas e there run =
      found_after s _ after run
        (prune_source-Kept foreign_keys now row s db cas (kept_or _ _ (refers_self _ s e)) there)

  prune_rows-Kept :
      (foreign_keys : Bool) (now : ℕ) (rows : List (PolicyRow Float)) (s : BackupSnapshot Float)
      (db : Database Float) (cas : CasStore)
      → is_locked now s.locked_until ≡ true
      → IsThere s db
      → Kept s (prune_rows foreign_keys now rows db cas).0
  unfolding prune_rows
  prune_rows-Kept foreign_keys now [] s db cas lock there = there
  prune_rows-Kept foreign_keys now (row ∷ rows) s db cas lock there =
      let kept = prune_source-Kept foreign_keys now row s db cas (kept_or_right _ _ lock) there in
      elim (Option-cases (prune_source foreign_keys now row db cas).0) [
        | inl raises ↦ rw (raises, prune_rows) tt
        | inr (d, runs) ↦
            rw (runs, prune_rows)
              (prune_rows-Kept foreign_keys now rows s d _ lock (subst (Kept s) runs kept))
      ]

  -- A run of the pruner keeps every snapshot with a lock that has not expired.
  pub prune-keeps_locked :
      (foreign_keys : Bool) (now : ℕ) (s : BackupSnapshot Float) (db : Database Float)
      (cas : CasStore)
      → is_locked now s.locked_until ≡ true
      → IsThere s db
      → get_snapshot s.id (prune_expired_snapshots foreign_keys now db cas).0.snapshots ≡ some s
  unfolding prune_expired_snapshots
  prune-keeps_locked foreign_keys now s db cas lock there =
      let kept = prune_rows-Kept foreign_keys now (policy_rows db) s db cas lock there in
      elim (Option-cases (prune_rows foreign_keys now (policy_rows db) db cas).0) [
        | inl raises ↦ rw (raises, prune_expired_snapshots) there.found
        | inr (d, runs) ↦ rw (runs, prune_expired_snapshots) (subst (Kept s) runs kept).found
      ]
