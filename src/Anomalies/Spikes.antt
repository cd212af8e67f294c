-- ===== src/Anomalies/Spikes.antt =====
-- The entropy check of app/services/anomaly_service.py and the snapshots before.
use backupos.Base.{ℕ, ◌≡◌, Option, ◌∷◌, [], arith, if◌then◌else◌}
use backupos.Entropy.{FloatOps, entropy_spike_detected}
use backupos.Models.{BackupSnapshot, Database, BackupPolicy}
use backupos.Anomalies.{add_alerts, threshold_of, or_zero, entropy_alert, check_entropy_anomaly}

module _ (F : FloatOps) where
  open F use {Float, decimal, lt, eq}

  -- The entropy check adds one alert exactly when the entropy of the snapshot is above the
  -- threshold, whatever the snapshots before are.
  pub check_entropy_anomaly_lem :
      (source_id : ℕ) (snapshot : BackupSnapshot Float) (policy : Option (BackupPolicy Float))
      (db : Database Float)
      → let current_avg = or_zero F snapshot.average_entropy in
        let threshold = threshold_of F policy in
        check_entropy_anomaly F source_id snapshot policy db ≡ (
          if lt threshold current_avg
          then add_alerts db (entropy_alert F source_id current_avg threshold ∷ [])
          else db)
  unfolding check_entropy_anomaly entropy_spike_detected
  check_entropy_anomaly_lem source_id snapshot policy db = ground arith
