-- ===== src/Anomalies/Tests.antt =====
-- A first snapshot of high entropy, and a second one of four times its size.
use backupos.Base.{ℕ, ◌+◌, ◌≡◌, refl, none, [], ◌∷◌, nat_eq, length}
use backupos.Entropy.{FloatOps, entropy_spike_detected}
use backupos.Models.{BackupSnapshot, Database}
use backupos.Cas.Sample.{tenths}
use backupos.Backup.Alerts.{by_newest, others, insert_desc}
use backupos.Backup.Sample.{sample_db}
use backupos.Anomalies.{
  snapshots_before, positive_sizes, entropy_alert, check_entropy_anomaly, size_alert,
  check_size_anomaly, add_alerts,
}

abbrev first : BackupSnapshot ℕ
first = record {
  id = 4;
  job_id = 7;
  source_id = 1;
  merkle_root = [];
  parent_snapshot_id = none;
  total_size_bytes = 2;
  dedup_size_bytes = 2;
  chunk_count = 1;
  new_chunk_count = 1;
  average_entropy = 78;
  created_at = 10;
  locked_until = none;
  last_verified_at = none;
  verification_status = none;
}

abbrev second : BackupSnapshot ℕ
second = record first { id = 5; total_size_bytes = 8; average_entropy = 30; created_at = 20 }

abbrev two : Database ℕ
two = record sample_db { snapshots = first ∷ second ∷ [] }

-- There is no snapshot before, and the check raises an alert all the same.
first_alerts :
    check_entropy_anomaly tenths 1 first none (record sample_db { snapshots = first ∷ [] })
    ≡ add_alerts (record sample_db { snapshots = first ∷ [] }) (entropy_alert tenths 1 78 75 ∷ [])
unfolding check_entropy_anomaly snapshots_before by_newest others insert_desc entropy_spike_detected
first_alerts = refl

second_entropy : check_entropy_anomaly tenths 1 second none two ≡ two
unfolding check_entropy_anomaly snapshots_before by_newest others insert_desc entropy_spike_detected
second_entropy = refl

-- Floats for sizes: the only mean here is that of one number.
abbrev units : FloatOps
units = record tenths { of_nat = λ n. n }

second_size : length (check_size_anomaly units 1 second two).alerts ≡ 1 + length two.alerts
unfolding check_size_anomaly snapshots_before by_newest others insert_desc positive_sizes size_alert
second_size = refl
