-- ===== src/Scheduler/Collect.antt =====
-- Which chunks `prune_expired_snapshots` leaves in the store.
use backupos.Base.{
  ℕ, ◌≡◌, ◌≢◌, refl, sym, ap, subst, ◌∙◌, inl, inr, Bool, true, false, Option, none, some, List, [],
  ◌∷◌, Bytes, bytes_eq, bytes_beq_iff, nat_eq, ◌==◌, arith, Bool-cases, Option-cases, if◌then◌else◌,
}
use backupos.Entropy.{FloatOps}
use backupos.Cas.{CasEnv, CasStore, delete, retrieve}
use backupos.Cas.Removal.{retrieve-delete}
use backupos.Models.{BackupSnapshot, BackupChunk, Database}
use backupos.Backup.{hashes_of}
use backupos.Scheduler.{PolicyRow, policy_rows}
use backupos.Scheduler.Retention.{
  is_kept, drop_chunks, delete_snapshot, still_referenced, collect_garbage, prune_loop,
  prune_source, prune_rows,
}
use backupos.Scheduler.Prune.{delete_snapshot-rows}

module _ {Float : Type 0} where
  -- A hash that a smaller table refers to, the larger one refers to.
  still_referenced-drop :
      (h : Bytes) (k : ℕ) (chunks : List (BackupChunk Float))
      → still_referenced h (drop_chunks k chunks) ≡ true
      → still_referenced h chunks ≡ true
  unfolding still_referenced
  still_referenced-drop h k [] e = e
  still_referenced-drop h k (c ∷ chunks) e = ground (arith, still_referenced-drop h k chunks)

module _ (F : FloatOps) (env : CasEnv F) where
  open F use {Float}

  true_ne_false : (b : Bool) → b ≡ true → b ≢ false
  true_ne_false b e n = ground arith

  collect_one :
      (h j : Bytes) (chunks : List (BackupChunk Float)) (cas : CasStore)
      → still_referenced j chunks ≡ true
      → retrieve F env j (if still_referenced h chunks then cas else (delete h cas).1)
        ≡ retrieve F env j cas
  collect_one h j chunks cas e = elim (Bool-cases (still_referenced h chunks)) [
    | inl used ↦ rw used refl
    | inr unused ↦ rw unused (
        retrieve-delete F env h j cas ∙ (elim (Bool-cases (h == j)) [
          | inl same ↦ absurd (
              true_ne_false _ e
                (ap (λ x. still_referenced x chunks) (sym ((bytes_beq_iff h j).0 same)) ∙ unused))
          | inr other ↦ rw other refl
        ]))
  ]

  collect_garbage-kept :
      (hashes : List Bytes) (j : Bytes) (chunks : List (BackupChunk Float)) (cas : CasStore)
      → still_referenced j chunks ≡ true
      → retrieve F env j (collect_garbage hashes chunks cas) ≡ retrieve F env j cas
  unfolding collect_garbage
  collect_garbage-kept [] j chunks cas e = refl
  collect_garbage-kept (h ∷ hashes) j chunks cas e =
      collect_garbage-kept hashes j chunks _ e ∙ collect_one h j chunks cas e

  -- What holds of a run for one digest: the rows that are left refer to it only if the rows before
  -- did, and then the store gives of it what it gave before.
  pub record IsSafe (j : Bytes) (db : Database Float) (cas : CasStore) (after : Database Float)
      (left : CasStore) : Type 0 where
    pub referenced : still_referenced j after.chunks ≡ true → still_referenced j db.chunks ≡ true
    pub same : still_referenced j after.chunks ≡ true → retrieve F env j left ≡ retrieve F env j cas

  abbrev Safe : Bytes → Database Float → CasStore → Option (Database Float) × CasStore → Type 0
  Safe j db cas (none, left) = Unit
  Safe j db cas (some after, left) = IsSafe j db cas after left

  IsSafe-refl : (j : Bytes) (db : Database Float) (cas : CasStore) → IsSafe j db cas db cas
  IsSafe-refl j db cas = record { referenced = λ e. e; same = λ e. refl }

  Safe-trans :
      (j : Bytes) (db mid : Database Float) (cas between : CasStore)
      (run : Option (Database Float) × CasStore)
      → IsSafe j db cas mid between
      → Safe j mid between run
      → Safe j db cas run
  Safe-trans j db mid cas between (none, left) s t = tt
  Safe-trans j db mid cas between (some after, left) s t = record {
    referenced = λ e. s.referenced (t.referenced e);
    same = λ e. t.same e ∙ s.same (t.referenced e);
  }

  delete-IsSafe :
      (j : Bytes) (foreign_keys : Bool) (k : ℕ) (hashes : List Bytes) (db d : Database Float)
      (cas : CasStore)
      → delete_snapshot foreign_keys k db ≡ some d
      → IsSafe j db cas d (collect_garbage hashes d.chunks cas)
  delete-IsSafe j foreign_keys k hashes db d cas e =
      let rows = (delete_snapshot-rows foreign_keys k db d e).1 in
      record {
        referenced =
            λ used. still_referenced-drop j k db.chunks (ap (still_referenced j) (sym rows) ∙ used);
        same = λ used. collect_garbage-kept hashes j d.chunks cas used;
      }

  prune_loop-Safe :
      (j : Bytes) (foreign_keys : Bool) (now : ℕ) (most_recent : Option ℕ)
      (ts : List (BackupSnapshot Float)) (db : Database Float) (cas : CasStore)
      → Safe j db cas (prune_loop foreign_keys now most_recent ts db cas)
  unfolding prune_loop
  prune_loop-Safe j foreign_keys now most_recent [] db cas = IsSafe-refl j db cas
  prune_loop-Safe j foreign_keys now most_recent (t ∷ ts) db cas =
      elim (Bool-cases (is_kept now most_recent t)) [
        | inl e ↦ rw (e, prune_loop) (prune_loop-Safe j foreign_keys now most_recent ts db cas)
        | inr e ↦ elim (Option-cases (delete_snapshot foreign_keys t.id db)) [
          | inl raises ↦ rw (e, raises, prune_loop) tt
          | inr (d, flushed) ↦
              rw (e, flushed, prune_loop)
                (Safe-trans j db d cas _ _
                  (delete-IsSafe j foreign_keys t.id (hashes_of t.id db.chunks) db d cas flushed)
                  (prune_loop-Safe j foreign_keys now most_recent ts d _))
        ]
      ]

  prune_rows-Safe :
      (j : Bytes) (foreign_keys : Bool) (now : ℕ) (rows : List (PolicyRow Float))
      (db : Database Float) (cas : CasStore)
      → Safe j db cas (prune_rows foreign_keys now rows db cas)
  unfolding prune_rows prune_source
  prune_rows-Safe j foreign_keys now [] db cas = IsSafe-refl j db cas
  prune_rows-Safe j foreign_keys now (row ∷ rows) db cas =
      let safe : Safe j db cas (prune_source foreign_keys now row db cas) =
        prune_loop-Safe j foreign_keys now _ _ db cas in
      elim (Option-cases (prune_source foreign_keys now row db cas).0) [
        | inl raises ↦ rw (raises, prune_rows) tt
        | inr (d, runs) ↦
            rw (runs, prune_rows)
              (Safe-trans j db d cas _ _
                (subst (λ o. Safe j db cas (o, (prune_source foreign_keys now row db cas).1)) runs
                  safe)
                (prune_rows-Safe j foreign_keys now rows d _))
      ]

  -- In a run of the pruner that commits, a chunk that a `BackupChunk` row still refers to comes
  -- out of the store as before.
  pub retrieve-prune_rows :
      (j : Bytes) (foreign_keys : Bool) (now : ℕ) (db after : Database Float) (cas left : CasStore)
      → prune_rows foreign_keys now (policy_rows db) db cas ≡ (some after, left)
      → still_referenced j after.chunks ≡ true
      → retrieve F env j left ≡ retrieve F env j cas
  retrieve-prune_rows j foreign_keys now db after cas left run used =
      (subst (Safe j db cas) run (prune_rows-Safe j foreign_keys now (policy_rows db) db cas)).same
        used
