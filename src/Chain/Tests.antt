-- ===== src/Chain/Tests.antt =====
-- A full snapshot with an incremental one behind it.
use backupos.Base.{ℕ, ◌≡◌, ◌↔◌, refl, List, nat_eq, Option, true, false, none, some, [], ◌∷◌, arith}
use backupos.Models.{BackupSnapshot, Database}
use backupos.Backup.Sample.{sample_db}
use backupos.Scheduler.Retention.{delete_snapshot, is_locked}
use backupos.Base.Dict.{lookup, insert}
use backupos.Restore.{get_snapshot}
use backupos.Chain.Search.{IsDepth, depths_exact}
use backupos.Chain.{depths, search, at_depth, depth_of, ids_where, children_of, is_safe}
use backupos.Chain.Safe.{safe-delete}

abbrev link : ℕ → Option ℕ → BackupSnapshot ℕ
link n parent = record {
  id = n;
  job_id = 7;
  source_id = 1;
  merkle_root = [];
  parent_snapshot_id = parent;
  total_size_bytes = 2;
  dedup_size_bytes = 2;
  chunk_count = 1;
  new_chunk_count = 1;
  average_entropy = 30;
  created_at = n;
  locked_until = none;
  last_verified_at = none;
  verification_status = none;
}

abbrev two : Database ℕ
two = record sample_db { snapshots = link 1 none ∷ link 2 (some 1) ∷ [] }

first_has_child :
    (is_safe 50 two.snapshots (link 1 none) ≡ false) × (children_of 1 two.snapshots ≡ 2 ∷ [])
unfolding is_safe ids_where
first_has_child = (refl, refl)

abbrev three : List (BackupSnapshot ℕ)
three = link 1 none ∷ link 3 (some 2) ∷ link 2 (some 1) ∷ []

depths-three : depths three ≡ ([], (1, 0) ∷ (2, 1) ∷ (3, 2) ∷ [])
unfolding depths search at_depth ids_where insert
depths-three = refl

-- Without its parent, a snapshot has depth 0, and so has its child.
depths_orphans :
    let depth_map = (depths (link 2 (some 1) ∷ link 3 (some 2) ∷ [])).1 in
    (depth_of 2 depth_map ≡ 0) × (depth_of 3 depth_map ≡ 0)
unfolding depths search at_depth ids_where depth_of lookup
depths_orphans = (refl, refl)

depths_exact_example :
    let (left, depth_map) = depths three in
    (left ≡ []) × ((n d : ℕ) → (lookup n depth_map ≡ some d) ↔ IsDepth three n d)
unfolding get_snapshot
depths_exact_example = depths_exact three (refl, (refl, (refl, tt)))

safe-delete_example :
    (is_locked 50 (link 2 (some 1)).locked_until ≡ false)
    × (delete_snapshot true 2 two ≡ delete_snapshot false 2 two)
unfolding is_safe ids_where
safe-delete_example = safe-delete 50 (link 2 (some 1)) two (omega arith) refl refl
