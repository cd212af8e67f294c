-- ===== src/Anomalies.antt =====
-- app/services/anomaly_service.py: two checks of a snapshot that is in the database. `db.add` and
-- `db.commit` add the alert to the rows.
pub mod Spikes
mod Tests
use backupos.Base.{
  ℕ, ◌+◌, false, ◌&&◌, ◌||◌, Option, none, some, List, [], ◌∷◌, ◌++◌, ltb, length, take,
  if◌then◌else◌,
}
use backupos.Entropy.{FloatOps, entropy_spike_detected}
use backupos.Models.{
  BackupSnapshot, Database, AnomalyAlert, entropy_spike, size_anomaly, high, BackupPolicy,
}
use backupos.Backup.Alerts.{by_newest, others}

abbrev pub sum_sizes : List ℕ → ℕ
sum_sizes [] = 0
sum_sizes (n ∷ sizes) = n + sum_sizes sizes

module _ {Float : Type 0} where
  -- The other snapshots of the source, the newest first.
  unfoldable pub snapshots_before :
      ℕ → BackupSnapshot Float → Database Float → List (BackupSnapshot Float)
  snapshots_before source_id snapshot db = others snapshot.id (by_newest source_id db.snapshots)

  abbrev pub add_alerts : Database Float → List (AnomalyAlert Float) → Database Float
  add_alerts db added = record db { alerts = db.alerts ++ added }

  -- `[s.total_size_bytes for s in recent if s.total_size_bytes > 0]`
  unfoldable pub positive_sizes : List (BackupSnapshot Float) → List ℕ
  positive_sizes [] = []
  positive_sizes (s ∷ recent) =
      let rest = positive_sizes recent in
      if ltb 0 s.total_size_bytes then s.total_size_bytes ∷ rest else rest

module _ (F : FloatOps) where
  open F use {Float, of_nat, decimal, mul, div, lt, eq}

  abbrev pub threshold_of : Option (BackupPolicy Float) → Float
  threshold_of none = decimal 75 1
  threshold_of (some p) = p.entropy_threshold

  -- `snapshot.average_entropy or 0.0`
  abbrev pub or_zero : Float → Float
  or_zero x = if eq x (decimal 0 1) then decimal 0 1 else x

  abbrev pub average_of : List (BackupSnapshot Float) → Float
  average_of [] = decimal 0 1
  average_of (prev ∷ _) = prev.average_entropy

  abbrev pub entropy_alert : ℕ → Float → Float → AnomalyAlert Float
  entropy_alert source_id current_avg threshold = record {
    source_id = source_id;
    alert_type = entropy_spike;
    severity = high;
    metric_value = current_avg;
    threshold_value = threshold;
    resolved = false;
  }

  unfoldable pub check_entropy_anomaly :
      ℕ → BackupSnapshot Float → Option (BackupPolicy Float) → Database Float → Database Float
  check_entropy_anomaly source_id snapshot policy db =
      let threshold = threshold_of policy in
      let current_avg = or_zero snapshot.average_entropy in
      let prev_avg = average_of (take 1 (snapshots_before source_id snapshot db)) in
      let is_spike = entropy_spike_detected F current_avg prev_avg threshold in
      let is_above_threshold = lt threshold current_avg in
      if is_spike || is_above_threshold
      then add_alerts db (entropy_alert source_id current_avg threshold ∷ [])
      else db

  unfoldable pub size_alert : ℕ → ℕ → List ℕ → List (AnomalyAlert Float)
  size_alert source_id current [] = []
  size_alert source_id current (n ∷ sizes) =
      let rolling_avg = div (of_nat (n + sum_sizes sizes)) (of_nat (length (n ∷ sizes))) in
      if lt (of_nat 0) rolling_avg && lt (mul (of_nat 3) rolling_avg) (of_nat current)
      then record {
        source_id = source_id;
        alert_type = size_anomaly;
        severity = high;
        metric_value = of_nat current;
        threshold_value = mul rolling_avg (of_nat 3);
        resolved = false;
      }
        ∷ []
      else []

  unfoldable pub check_size_anomaly : ℕ → BackupSnapshot Float → Database Float → Database Float
  check_size_anomaly source_id snapshot db =
      let recent = take 5 (snapshots_before source_id snapshot db) in
      add_alerts db (size_alert source_id snapshot.total_size_bytes (positive_sizes recent))
