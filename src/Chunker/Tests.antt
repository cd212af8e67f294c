-- ===== src/Chunker/Tests.antt =====
-- Chunks of small data, and the theorems where their hypotheses hold.
use mathlib.Core.List.{flatten}
use backupos.Base.{◌≡◌, refl, [], ◌∷◌, Bytes, map, length, replicate, drop, arith}
use backupos.Chunker.{
  chunk_data, chunk_loop, chunk_end, scan, at_boundary, fast_forwarded, fast_forward_loop, roll,
  rolling_hash, seed_loop, pad_window,
}
use backupos.Chunker.Lossless.{flatten-chunk_data}
use backupos.Chunker.Bounds.{IsCut, chunk_data-IsCut}
use backupos.Chunker.Boundary.{IsCutAt, chunk_end-IsCutAt}
use backupos.Chunker.Resume.{chunk_data-resume}

abbrev zeros : Bytes
zeros = replicate 600 0

-- A window of zeros hashes to 0: the first length that may end a chunk does.
lengths_of_zeros : map length (chunk_data zeros) ≡ 513 ∷ 87 ∷ []
unfolding chunk_data chunk_loop chunk_end scan at_boundary fast_forwarded fast_forward_loop roll
    rolling_hash seed_loop pad_window
lengths_of_zeros = refl

zeros_cut : chunk_data zeros ≡ replicate 513 0 ∷ replicate 87 0 ∷ []
unfolding chunk_data chunk_loop chunk_end scan at_boundary fast_forwarded fast_forward_loop roll
    rolling_hash seed_loop pad_window
zeros_cut = refl

chunk_data-resume_example : chunk_data (drop 513 zeros) ≡ replicate 87 0 ∷ []
chunk_data-resume_example =
    chunk_data-resume zeros (replicate 513 0) (replicate 87 0 ∷ []) zeros_cut

flatten-chunk_data_example : flatten (chunk_data zeros) ≡ zeros
flatten-chunk_data_example = flatten-chunk_data zeros

chunk_data-IsCut_example : IsCut (chunk_data zeros)
chunk_data-IsCut_example = chunk_data-IsCut zeros

chunk_end-IsCutAt_example : IsCutAt zeros 0 (chunk_end zeros 0)
chunk_end-IsCutAt_example = chunk_end-IsCutAt zeros 0 (omega arith)
