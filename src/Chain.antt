-- ===== src/Chain.antt =====
-- app/api/chain.py: the graph of a source's snapshots by `parent_snapshot_id`.
mod Safe
pub mod Ids
pub mod Ends
pub mod Search
mod Tests
use backupos.Base.{
  ℕ, zero, suc, ◌+◌, Bool, true, false, not, ◌&&◌, ◌||◌, Option, none, some, List, [], ◌∷◌, ◌++◌,
  Bytes, nat_eq, ltb, eqb, ◌==◌, length, if◌then◌else◌,
}
use backupos.Base.Dict.{Dict, lookup, insert}
use backupos.Models.{BackupSnapshot, BackupType, BackupJob, Database}
use backupos.Http.{Response, answer, failed_with, not_found}
use backupos.Backup.{get_job}
use backupos.Scheduler.Retention.{is_locked}
use backupos.Snapshots.{DataSource, owns}

pub record ChainNode : Type 0 where
  pub snapshot_id : ℕ
  pub parent_snapshot_id : Option ℕ
  pub backup_type : Option BackupType
  pub created_at : ℕ
  pub total_size_bytes : ℕ
  pub chunk_count : ℕ
  pub merkle_root : Bytes
  pub locked : Bool
  pub children : List ℕ
  pub safe_to_delete : Bool
  pub depth : ℕ

pub record ChainResponse : Type 0 where
  pub source_id : ℕ
  pub snapshot_count : ℕ
  pub chain_depth : ℕ
  pub nodes : List ChainNode

-- `snap.parent_snapshot_id and …`, for the key `sid`: NULL and 0 are not true.
abbrev pub has_parent : Option ℕ → ℕ → Bool
has_parent none sid = false
has_parent (some p) sid = not (eqb p 0) && p == sid

-- `not s.parent_snapshot_id`
abbrev pub is_root : Option ℕ → Bool
is_root none = true
is_root (some p) = eqb p 0

-- `[(n, d) for n in ids]`
unfoldable pub at_depth : ℕ → List ℕ → List (ℕ × ℕ)
at_depth d [] = []
at_depth d (n ∷ ids) = (n, d) ∷ at_depth d ids

-- `depth_map`, in which the nodes that the search did not reach are set to 0.
unfoldable pub depth_of : ℕ → Dict ℕ ℕ → ℕ
depth_of sid depth_map = elim (lookup sid depth_map) [ none ↦ 0 | some d ↦ d ]

-- `max((n.depth for n in nodes), default=0)`
unfoldable pub max_depth : List ChainNode → ℕ
max_depth [] = 0
max_depth (n ∷ nodes) = let rest = max_depth nodes in if ltb n.depth rest then rest else n.depth

-- `sorted(…)`
unfoldable pub insert_id : ℕ → List ℕ → List ℕ
insert_id n [] = n ∷ []
insert_id n (m ∷ ms) = let rest = insert_id n ms in if ltb m n then m ∷ rest else n ∷ m ∷ ms

unfoldable pub sort_ids : List ℕ → List ℕ
sort_ids [] = []
sort_ids (n ∷ ns) = insert_id n (sort_ids ns)

-- `backup_type_map`, with the type of the job that the snapshot is joined with.
unfoldable pub type_of : List BackupJob → ℕ → Option BackupType
type_of jobs job_id = elim (get_job job_id jobs) [ none ↦ none | some job ↦ some job.backup_type ]

unfoldable pub has_job : ℕ → List BackupJob → Bool
has_job job_id jobs = elim (get_job job_id jobs) [ none ↦ false | some job ↦ true ]

module _ {Float : Type 0} where
  -- The ids of the snapshots whose parent passes a test.
  unfoldable pub ids_where : (Option ℕ → Bool) → List (BackupSnapshot Float) → List ℕ
  ids_where test [] = []
  ids_where test (s ∷ snapshots) =
      let rest = ids_where test snapshots in if test s.parent_snapshot_id then s.id ∷ rest else rest

  -- `children_map[sid]`
  abbrev pub children_of : ℕ → List (BackupSnapshot Float) → List ℕ
  children_of sid = ids_where (λ parent. has_parent parent sid)

  -- `roots`
  abbrev pub roots_of : List (BackupSnapshot Float) → List ℕ
  roots_of = ids_where is_root

  -- The `while` loop over `queue` and `depth_map`: what is left of both.
  unfoldable pub search :
      List (BackupSnapshot Float) → ℕ → List (ℕ × ℕ) → Dict ℕ ℕ → List (ℕ × ℕ) × Dict ℕ ℕ
  search snapshots fuel [] depth_map = ([], depth_map)
  search snapshots zero (entry ∷ queue) depth_map = (entry ∷ queue, depth_map)
  search snapshots (suc fuel) ((sid, d) ∷ queue) depth_map =
      search snapshots fuel (queue ++ at_depth (suc d) (children_of sid snapshots))
        (insert sid d depth_map)

  -- The search from the roots.
  unfoldable pub depths : List (BackupSnapshot Float) → List (ℕ × ℕ) × Dict ℕ ℕ
  depths snapshots = search snapshots (length snapshots) (at_depth 0 (roots_of snapshots)) []

  -- `safe_map[sid]`
  unfoldable pub is_safe : ℕ → List (BackupSnapshot Float) → BackupSnapshot Float → Bool
  is_safe now snapshots s =
      not (is_locked now s.locked_until) && eqb (length (children_of s.id snapshots)) 0

  -- `sorted(snapshots, key=lambda s: s.created_at)`, which is stable.
  unfoldable pub insert_created :
      BackupSnapshot Float → List (BackupSnapshot Float) → List (BackupSnapshot Float)
  insert_created s [] = s ∷ []
  insert_created s (t ∷ ts) =
      let rest = insert_created s ts in
      if ltb t.created_at s.created_at then t ∷ rest else s ∷ t ∷ ts

  unfoldable pub sort_created : List (BackupSnapshot Float) → List (BackupSnapshot Float)
  sort_created [] = []
  sort_created (s ∷ snapshots) = insert_created s (sort_created snapshots)

  unfoldable pub node_of :
      ℕ → List BackupJob → List (BackupSnapshot Float) → Dict ℕ ℕ → BackupSnapshot Float → ChainNode
  node_of now jobs snapshots depth_map s = record {
    snapshot_id = s.id;
    parent_snapshot_id = s.parent_snapshot_id;
    backup_type = type_of jobs s.job_id;
    created_at = s.created_at;
    total_size_bytes = s.total_size_bytes;
    chunk_count = s.chunk_count;
    merkle_root = s.merkle_root;
    locked = is_locked now s.locked_until;
    children = sort_ids (children_of s.id snapshots);
    safe_to_delete = is_safe now snapshots s;
    depth = depth_of s.id depth_map;
  }

  unfoldable pub nodes_of :
      ℕ
      → List BackupJob
      → List (BackupSnapshot Float)
      → Dict ℕ ℕ
      → List (BackupSnapshot Float)
      → List ChainNode
  nodes_of now jobs snapshots depth_map [] = []
  nodes_of now jobs snapshots depth_map (s ∷ ss) =
      node_of now jobs snapshots depth_map s ∷ nodes_of now jobs snapshots depth_map ss

  unfoldable pub build_chain : ℕ → List BackupJob → List (BackupSnapshot Float) → List ChainNode
  build_chain now jobs snapshots =
      nodes_of now jobs snapshots (depths snapshots).1 (sort_created snapshots)

  -- `.join(BackupJob, …).where(BackupSnapshot.source_id == source_id)`
  unfoldable pub of_source :
      List BackupJob → ℕ → List (BackupSnapshot Float) → List (BackupSnapshot Float)
  of_source jobs source_id [] = []
  of_source jobs source_id (s ∷ snapshots) =
      let rest = of_source jobs source_id snapshots in
      if s.source_id == source_id && has_job s.job_id jobs then s ∷ rest else rest

  unfoldable pub chain_response :
      ℕ → ℕ → List (BackupSnapshot Float) → Database Float → ChainResponse
  chain_response now source_id snapshots db =
      let nodes = build_chain now db.backup_jobs snapshots in
      record {
        source_id = source_id;
        snapshot_count = length nodes;
        chain_depth = max_depth nodes;
        nodes = nodes;
      }

  unfoldable pub get_backup_chain :
      ℕ → ℕ → ℕ → List DataSource → Database Float → Response ChainResponse
  get_backup_chain now tenant_id source_id sources db =
      if not (owns tenant_id source_id sources)
      then failed_with not_found
      else elim (sort_created (of_source db.backup_jobs source_id db.snapshots)) [
        | [] ↦ failed_with not_found
        | s ∷ snapshots ↦ answer (chain_response now source_id (s ∷ snapshots) db)
      ]
