-- ===== src/Analytics/Report.antt =====
-- app/api/analytics.py: the handler `source_analytics`.
use backupos.Base.{ℕ, ◌-◌, Option, none, some, List, [], ◌∷◌, map, ltb, length, if◌then◌else◌}
use backupos.Entropy.{FloatOps}
use backupos.Models.{BackupSnapshot, Database}
use backupos.Http.{Response, answer}
use backupos.Snapshots.{DataSource}
use backupos.Queries.{if_owned}
use backupos.Analytics.{
  Rounding, SnapshotTrend, GrowthProjection, AnalyticsResponse, by_oldest, total_raw, total_dedup,
  last_dedup, chunks_of, compression_savings, difference, ols,
}

module _ (F : FloatOps) (R : Rounding (F.Float)) where
  open F use {Float, of_nat, decimal, add, mul, div}

  -- The share of the raw bytes that are not stored again.
  abbrev pub dedup_ratio : ℕ → ℕ → Float
  dedup_ratio raw dedup =
      if ltb 0 raw then R.round (div (difference F raw dedup) (of_nat raw)) 4 else decimal 0 1

  abbrev pub trend_of : BackupSnapshot Float → SnapshotTrend Float
  trend_of s = record {
    snapshot_id = s.id;
    created_at = s.created_at;
    total_size_bytes = s.total_size_bytes;
    dedup_size_bytes = s.dedup_size_bytes;
    dedup_ratio = dedup_ratio s.total_size_bytes s.dedup_size_bytes;
    new_chunk_count = s.new_chunk_count;
    chunk_count = s.chunk_count;
    average_entropy = s.average_entropy;
  }

  -- `base_ts` is the time of the first of the snapshots, which is the oldest.
  abbrev pub days_after : ℕ → BackupSnapshot Float → Float
  days_after base_ts s = div (of_nat (s.created_at - base_ts)) (decimal 864000 1)

  abbrev pub projected : ℕ → Float → ℕ → ℕ
  projected last_y slope days = R.non_negative_int (add (of_nat last_y) (mul slope (of_nat days)))

  unfoldable pub projection_of : List (BackupSnapshot Float) → Option (GrowthProjection Float)
  projection_of [] = none
  projection_of (s ∷ []) = none
  projection_of (s ∷ t ∷ snapshots) =
      let all = s ∷ t ∷ snapshots in
      let xs = map (days_after s.created_at) all in
      let ys = map (λ (u : BackupSnapshot Float). of_nat u.dedup_size_bytes) all in
      let (slope, (_, r_sq)) = ols F xs ys in
      some (record {
        slope_bytes_per_day = R.round slope 2;
        projected_30d_bytes = projected (last_dedup s (t ∷ snapshots)) slope 30;
        projected_90d_bytes = projected (last_dedup s (t ∷ snapshots)) slope 90;
        r_squared = R.round r_sq 4;
        data_points = length all;
      })

  unfoldable pub analytics_of :
      ℕ → Database Float → List (BackupSnapshot Float) → AnalyticsResponse Float
  analytics_of source_id db [] = record {
    source_id = source_id;
    snapshot_count = 0;
    total_unique_bytes = 0;
    total_raw_bytes = 0;
    overall_dedup_ratio = decimal 0 1;
    compression_savings_bytes = 0;
    trends = [];
    growth_projection = none;
  }
  analytics_of source_id db (s ∷ snapshots) = record {
    source_id = source_id;
    snapshot_count = length (s ∷ snapshots);
    total_unique_bytes = last_dedup s snapshots;
    total_raw_bytes = total_raw (s ∷ snapshots);
    overall_dedup_ratio = dedup_ratio (total_raw (s ∷ snapshots)) (total_dedup (s ∷ snapshots));
    compression_savings_bytes = compression_savings (chunks_of source_id db.snapshots db.chunks);
    trends = map trend_of (s ∷ snapshots);
    growth_projection = projection_of (s ∷ snapshots);
  }

  unfoldable pub source_analytics :
      ℕ → List DataSource → ℕ → Database Float → Response (AnalyticsResponse Float)
  source_analytics tenant_id sources source_id db =
      if_owned tenant_id source_id sources
        (answer (analytics_of source_id db (by_oldest source_id db.snapshots)))
