-- ===== src/Analytics/Tests.antt =====
-- Two snapshots of a source, the older one second in the table; floats are numbers of tenths.
use backupos.Base.{ℕ, ◌≡◌, refl, true, none, List, [], ◌∷◌, nat_eq, map}
use backupos.Models.{BackupSnapshot, BackupChunk, Database}
use backupos.Http.{answer, failed_with, not_found, Response}
use backupos.Snapshots.{DataSource, owns}
use backupos.Scheduler.Retention.{insert_asc}
use backupos.Cas.Sample.{tenths}
use backupos.Backup.Sample.{sample_db}
use backupos.Analytics.{
  Rounding, SnapshotTrend, AnalyticsResponse, by_oldest, is_chunk_of, chunks_of,
  compression_savings,
}
use backupos.Analytics.Report.{projection_of, analytics_of, source_analytics}

abbrev sources : List DataSource
sources = record { id = 1; tenant_id = 6 } ∷ []

abbrev newer : BackupSnapshot ℕ
newer = record {
  id = 5;
  job_id = 7;
  source_id = 1;
  merkle_root = [];
  parent_snapshot_id = none;
  total_size_bytes = 8;
  dedup_size_bytes = 3;
  chunk_count = 1;
  new_chunk_count = 1;
  average_entropy = 30;
  created_at = 20;
  locked_until = none;
  last_verified_at = none;
  verification_status = none;
}

abbrev older : BackupSnapshot ℕ
older = record newer { id = 4; dedup_size_bytes = 2; created_at = 10 }

abbrev chunk : ℕ → ℕ → BackupChunk ℕ
chunk snapshot_id compressed_size = record {
  snapshot_id = snapshot_id;
  chunk_hash = [];
  size_bytes = 7;
  compressed_size_bytes = compressed_size;
  entropy = 30;
  is_new = true;
}

-- The chunk of no snapshot does not count, and neither does one that is larger compressed.
abbrev two : Database ℕ
two = record sample_db {
  snapshots = newer ∷ older ∷ [];
  chunks = chunk 5 4 ∷ chunk 4 5 ∷ chunk 4 9 ∷ chunk 3 1 ∷ [];
}

abbrev rounding : Rounding ℕ
rounding = record { round = λ x n. x; non_negative_int = λ x. x }

abbrev summary : Response (AnalyticsResponse ℕ) → Response (ℕ × (ℕ × (ℕ × List ℕ)))
summary (failed_with status) = failed_with status
summary (answer a) = answer (
  a.snapshot_count,
  (
    a.total_unique_bytes,
    (a.compression_savings_bytes, map (λ (t : SnapshotTrend ℕ). t.snapshot_id) a.trends),
  ),
)

oldest_first :
    summary (source_analytics tenths rounding 6 sources 1 two) ≡ answer (2, (3, (5, 4 ∷ 5 ∷ [])))
unfolding source_analytics analytics_of by_oldest insert_asc is_chunk_of chunks_of
    compression_savings owns
oldest_first = refl

other_tenant_refused : source_analytics tenths rounding 7 sources 1 two ≡ failed_with not_found
unfolding source_analytics owns
other_tenant_refused = refl

-- One snapshot has no projection.
no_projection : projection_of tenths rounding (newer ∷ []) ≡ none
unfolding projection_of
no_projection = refl
