-- ===== src/Backup/Alerts.antt =====
-- app/workers/backup_worker.py: step 7 of `run_backup`, the alerts on a new snapshot.
use backupos.Base.{
  ℕ, ◌+◌, false, ◌&&◌, ◌||◌, Option, none, some, List, [], ◌∷◌, ◌++◌, Bytes, nat_eq, ◌==◌, ltb, leb,
  length, take, if◌then◌else◌,
}
use mathlib.Core.List.{flatten, reverse}
use backupos.Entropy.{
  FloatOps, sum, entropy_spike_detected, chi_squared_uniform_test, ewma_entropy_baseline,
}
use backupos.Models.{
  BackupSnapshot, Database, AnomalyAlert, entropy_spike, dedup_ratio_collapse, size_anomaly, medium,
  high, critical, BackupPolicy, PolicyAttachment,
}

module _ {Float : Type 0} where
  -- `.order_by(BackupSnapshot.created_at.desc())`
  unfoldable pub insert_desc :
      BackupSnapshot Float → List (BackupSnapshot Float) → List (BackupSnapshot Float)
  insert_desc s [] = s ∷ []
  insert_desc s (t ∷ ts) =
      if ltb s.created_at t.created_at then t ∷ insert_desc s ts else s ∷ t ∷ ts

  unfoldable pub by_newest : ℕ → List (BackupSnapshot Float) → List (BackupSnapshot Float)
  by_newest source_id [] = []
  by_newest source_id (s ∷ snapshots) =
      let rest = by_newest source_id snapshots in
      if s.source_id == source_id then insert_desc s rest else rest

  -- `[s for s in recent if s.id != snapshot.id]`
  unfoldable pub others : ℕ → List (BackupSnapshot Float) → List (BackupSnapshot Float)
  others snapshot_id [] = []
  others snapshot_id (s ∷ recent) =
      let rest = others snapshot_id recent in if s.id == snapshot_id then rest else s ∷ rest

  abbrev pub sizes_of : List (BackupSnapshot Float) → ℕ
  sizes_of [] = 0
  sizes_of (s ∷ snapshots) = s.total_size_bytes + sizes_of snapshots

  unfoldable pub get_policy : ℕ → List (BackupPolicy Float) → Option (BackupPolicy Float)
  get_policy policy_id [] = none
  get_policy policy_id (p ∷ policies) =
      if p.id == policy_id then some p else get_policy policy_id policies

  -- The policy of a source: the first row of the join with the attachments.
  unfoldable pub policy_of :
      ℕ → List (BackupPolicy Float) → List PolicyAttachment → Option (BackupPolicy Float)
  policy_of source_id policies [] = none
  policy_of source_id policies (a ∷ attachments) =
      let rest = policy_of source_id policies attachments in
      if a.source_id == source_id
      then elim (get_policy a.policy_id policies) [ none ↦ rest | some p ↦ some p ]
      else rest

module _ (F : FloatOps) where
  open F use {Float, of_nat, decimal, sub, mul, div, lt, eq}

  unfoldable pub policy_threshold : ℕ → Database Float → Float
  policy_threshold source_id db = elim (policy_of source_id db.policies db.attachments) [
    | none ↦ decimal 75 1
    | some p ↦ p.entropy_threshold
  ]

  -- `[s.average_entropy for s in … if s.average_entropy]`
  unfoldable pub nonzero_entropies : List (BackupSnapshot Float) → List Float
  nonzero_entropies [] = []
  nonzero_entropies (s ∷ snapshots) =
      let rest = nonzero_entropies snapshots in
      if eq s.average_entropy (decimal 0 1) then rest else s.average_entropy ∷ rest

  unfoldable pub entropy_alerts :
      ℕ
      → Float
      → List Bytes
      → List (BackupSnapshot Float)
      → Database Float
      → List (AnomalyAlert Float)
  entropy_alerts source_id avg_entropy all_chunks prev_snapshots db =
      let threshold = policy_threshold source_id db in
      let ewma_baseline =
        ewma_entropy_baseline F (nonzero_entropies (reverse prev_snapshots)) (decimal 3 1) in
      let p_value = chi_squared_uniform_test F (flatten (take 20 all_chunks)) in
      let is_encrypted = lt (decimal 5 2) p_value in
      if lt threshold avg_entropy
        || entropy_spike_detected F avg_entropy ewma_baseline (decimal 72 1)
      then record {
        source_id = source_id;
        alert_type = entropy_spike;
        severity = if is_encrypted then critical else medium;
        metric_value = avg_entropy;
        threshold_value = threshold;
        resolved = false;
      }
        ∷ []
      else []

  unfoldable pub reuse : ℕ → ℕ → Float
  reuse dedup_size total_size = sub (decimal 10 1) (div (of_nat dedup_size) (of_nat total_size))

  unfoldable pub recent_reuse : List (BackupSnapshot Float) → List Float
  recent_reuse [] = []
  recent_reuse (s ∷ snapshots) =
      let rest = recent_reuse snapshots in
      if ltb 0 s.total_size_bytes then reuse s.dedup_size_bytes s.total_size_bytes ∷ rest else rest

  unfoldable pub dedup_alerts : ℕ → ℕ → ℕ → List (BackupSnapshot Float) → List (AnomalyAlert Float)
  dedup_alerts source_id total_size dedup_size prev_snapshots =
      let rates = recent_reuse prev_snapshots in
      let avg_reuse = div (sum F rates) (of_nat (length rates)) in
      let current_reuse = reuse dedup_size total_size in
      if (ltb 0 (length prev_snapshots) && ltb 0 total_size)
        && leb 3 (length rates)
        && lt (decimal 3 1) avg_reuse
        && lt current_reuse (mul avg_reuse (decimal 3 1))
      then record {
        source_id = source_id;
        alert_type = dedup_ratio_collapse;
        severity = high;
        metric_value = current_reuse;
        threshold_value = mul avg_reuse (decimal 3 1);
        resolved = false;
      }
        ∷ []
      else []

  unfoldable pub size_alerts : ℕ → ℕ → List (BackupSnapshot Float) → List (AnomalyAlert Float)
  size_alerts source_id total_size prev_snapshots =
      let rolling_avg = div (of_nat (sizes_of prev_snapshots)) (of_nat (length prev_snapshots)) in
      if leb 2 (length prev_snapshots)
        && lt (of_nat 0) rolling_avg
        && lt (mul (of_nat 3) rolling_avg) (of_nat total_size)
      then record {
        source_id = source_id;
        alert_type = size_anomaly;
        severity = high;
        metric_value = of_nat total_size;
        threshold_value = mul rolling_avg (of_nat 3);
        resolved = false;
      }
        ∷ []
      else []

  -- The alerts on the snapshot `snapshot_id`, which is in the database.
  unfoldable pub detect : ℕ → ℕ → Float → ℕ → ℕ → List Bytes → Database Float → Database Float
  detect snapshot_id source_id avg_entropy total_size dedup_size all_chunks db =
      let recent = take 10 (by_newest source_id db.snapshots) in
      let prev_snapshots = others snapshot_id recent in
      record db {
        alerts =
            db.alerts
            ++ entropy_alerts source_id avg_entropy all_chunks prev_snapshots db
            ++ dedup_alerts source_id total_size dedup_size prev_snapshots
            ++ size_alerts source_id total_size prev_snapshots;
      }
