-- ===== src/Analytics.antt =====
-- app/api/analytics.py: the trends of a source's snapshots, and the projection of its growth. A
-- time is a number of seconds; `Rounding` has Python's conversions of floats.
pub mod Report
pub mod Savings
mod Tests
use backupos.Base.{
  ℕ, suc, ◌+◌, ◌-◌, Bool, true, false, ◌&&◌, ◌||◌, Option, none, some, List, [], ◌∷◌, map, nat_eq,
  ◌==◌, ltb, leb, length, if◌then◌else◌,
}
use backupos.Entropy.{FloatOps, sum}
use backupos.Models.{BackupSnapshot, BackupChunk, Database}
use backupos.Http.{Response, answer}
use backupos.Snapshots.{DataSource, owns}
use backupos.Scheduler.Retention.{insert_asc}
use backupos.Queries.{if_owned}

-- `round(x, n)`, and `max(0, int(x))`, which is on a finite float.
pub record Rounding (Float : Type 0) : Type 0 where
  pub round : Float → ℕ → Float
  pub non_negative_int : Float → ℕ

pub record SnapshotTrend (Float : Type 0) : Type 0 where
  pub snapshot_id : ℕ
  pub created_at : ℕ
  pub total_size_bytes : ℕ
  pub dedup_size_bytes : ℕ
  pub dedup_ratio : Float
  pub new_chunk_count : ℕ
  pub chunk_count : ℕ
  pub average_entropy : Float

pub record GrowthProjection (Float : Type 0) : Type 0 where
  pub slope_bytes_per_day : Float
  pub projected_30d_bytes : ℕ
  pub projected_90d_bytes : ℕ
  pub r_squared : Float
  pub data_points : ℕ

pub record AnalyticsResponse (Float : Type 0) : Type 0 where
  pub source_id : ℕ
  pub snapshot_count : ℕ
  pub total_unique_bytes : ℕ
  pub total_raw_bytes : ℕ
  pub overall_dedup_ratio : Float
  pub compression_savings_bytes : ℕ
  pub trends : List (SnapshotTrend Float)
  pub growth_projection : Option (GrowthProjection Float)

module _ {Float : Type 0} where
  -- `.order_by(BackupSnapshot.created_at.asc())`
  unfoldable pub by_oldest : ℕ → List (BackupSnapshot Float) → List (BackupSnapshot Float)
  by_oldest source_id [] = []
  by_oldest source_id (s ∷ snapshots) =
      let rest = by_oldest source_id snapshots in
      if s.source_id == source_id then insert_asc s rest else rest

  abbrev pub total_raw : List (BackupSnapshot Float) → ℕ
  total_raw [] = 0
  total_raw (s ∷ snapshots) = s.total_size_bytes + total_raw snapshots

  abbrev pub total_dedup : List (BackupSnapshot Float) → ℕ
  total_dedup [] = 0
  total_dedup (s ∷ snapshots) = s.dedup_size_bytes + total_dedup snapshots

  abbrev pub last_dedup : BackupSnapshot Float → List (BackupSnapshot Float) → ℕ
  last_dedup s [] = s.dedup_size_bytes
  last_dedup _ (s ∷ snapshots) = last_dedup s snapshots

  -- The join of `BackupChunk` with the snapshots of a source.
  unfoldable pub is_chunk_of : ℕ → List (BackupSnapshot Float) → BackupChunk Float → Bool
  is_chunk_of source_id [] c = false
  is_chunk_of source_id (s ∷ snapshots) c =
      (c.snapshot_id == s.id && s.source_id == source_id) || is_chunk_of source_id snapshots c

  unfoldable pub chunks_of :
      ℕ → List (BackupSnapshot Float) → List (BackupChunk Float) → List (BackupChunk Float)
  chunks_of source_id snapshots [] = []
  chunks_of source_id snapshots (c ∷ chunks) =
      let rest = chunks_of source_id snapshots chunks in
      if is_chunk_of source_id snapshots c then c ∷ rest else rest

  -- A row of a chunk has its compressed size, which the backup worker sets.
  unfoldable pub compression_savings : List (BackupChunk Float) → ℕ
  compression_savings [] = 0
  compression_savings (c ∷ chunks) =
      let rest = compression_savings chunks in
      if ltb c.compressed_size_bytes c.size_bytes
      then (c.size_bytes - c.compressed_size_bytes) + rest
      else rest

module _ (F : FloatOps) where
  open F use {Float, of_nat, decimal, add, sub, mul, div, pow, lt, eq}

  -- `a - b` of two ints.
  abbrev pub difference : ℕ → ℕ → Float
  difference a b = if leb b a then of_nat (a - b) else sub (of_nat 0) (of_nat (b - a))

  -- The terms of `ss_xy` and `ss_res`, over `zip(xs, ys)`.
  abbrev pub products : Float → Float → List Float → List Float → List Float
  products mean_x mean_y [] ys = []
  products mean_x mean_y (x ∷ xs) [] = []
  products mean_x mean_y (x ∷ xs) (y ∷ ys) =
      mul (sub x mean_x) (sub y mean_y) ∷ products mean_x mean_y xs ys

  abbrev pub residuals : Float → Float → List Float → List Float → List Float
  residuals slope intercept [] ys = []
  residuals slope intercept (x ∷ xs) [] = []
  residuals slope intercept (x ∷ xs) (y ∷ ys) =
      pow (sub y (add (mul slope x) intercept)) (of_nat 2) ∷ residuals slope intercept xs ys

  abbrev pub squares : Float → List Float → List Float
  squares mean xs = map (λ (x : Float). pow (sub x mean) (of_nat 2)) xs

  abbrev pub head_or_zero : List Float → Float
  head_or_zero [] = decimal 0 1
  head_or_zero (y ∷ _) = y

  -- The slope, the intercept, and `r_squared`; `ys` is as long as `xs`.
  unfoldable pub ols : List Float → List Float → Float × (Float × Float)
  ols xs ys =
      let mean_x = div (sum F xs) (of_nat (length xs)) in
      let mean_y = div (sum F ys) (of_nat (length xs)) in
      let ss_xy = sum F (products mean_x mean_y xs ys) in
      let ss_xx = sum F (squares mean_x xs) in
      let slope = div ss_xy ss_xx in
      let intercept = sub mean_y (mul slope mean_x) in
      let ss_res = sum F (residuals slope intercept xs ys) in
      let ss_tot = sum F (squares mean_y ys) in
      let r_sq =
        if lt (of_nat 0) ss_tot then sub (decimal 10 1) (div ss_res ss_tot) else decimal 10 1 in
      if ltb (length xs) 2
      then (decimal 0 1, (head_or_zero ys, decimal 0 1))
      else if eq ss_xx (of_nat 0)
      then (decimal 0 1, (mean_y, decimal 10 1))
      else (slope, (intercept, r_sq))
