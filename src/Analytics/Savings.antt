-- ===== src/Analytics/Savings.antt =====
-- What `compression_savings_bytes` of app/api/analytics.py counts.
use backupos.Base.{ℕ, ◌+◌, ◌≡◌, List, [], ◌∷◌, ltb, arith, if◌then◌else◌}
use backupos.Models.{BackupChunk}
use backupos.Analytics.{compression_savings}

module _ {Float : Type 0} where
  abbrev pub sizes : List (BackupChunk Float) → ℕ
  sizes [] = 0
  sizes (c ∷ chunks) = c.size_bytes + sizes chunks

  -- A chunk that compression does not make smaller counts with its size.
  abbrev pub smaller_sizes : List (BackupChunk Float) → ℕ
  smaller_sizes [] = 0
  smaller_sizes (c ∷ chunks) =
      (if ltb c.compressed_size_bytes c.size_bytes then c.compressed_size_bytes else c.size_bytes)
      + smaller_sizes chunks

  -- The savings and the smaller of the two sizes of each chunk add up to the sizes of the chunks.
  pub compression_savings_lem :
      (chunks : List (BackupChunk Float))
      → compression_savings chunks + smaller_sizes chunks ≡ sizes chunks
  unfolding compression_savings
  compression_savings_lem [] = ground arith
  compression_savings_lem (c ∷ chunks) = ground (arith, compression_savings_lem chunks)
