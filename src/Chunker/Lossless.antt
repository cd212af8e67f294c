-- ===== src/Chunker/Lossless.antt =====
-- Nothing is lost in chunking: the chunks, joined, are the data.
use mathlib.Core.List.{flatten}
use backupos.Base.{
  ℕ, zero, suc, ◌+◌, ◌-◌, ◌≤◌, ◌≡◌, sym, ap, ◌∙◌, inl, inr, ◌++◌, Bytes, arith, ltb, length, drop,
  drop-drop, drop_all, take-append-drop, Bool-cases,
}
use backupos.Chunker.{chunk_end, slice, chunk_loop, chunk_data}
use backupos.Chunker.Bounds.{chunk_end-IsStop}

module _ (bytes : Bytes) where
  slice-append-drop :
      (start stop : ℕ) → start ≤ stop → slice bytes start stop ++ drop stop bytes ≡ drop start bytes
  slice-append-drop start stop h =
      ap (λ rest. slice bytes start stop ++ rest)
        (sym (drop-drop start (stop - start) bytes ∙ ap (λ k. drop k bytes) (omega arith)))
      ∙ take-append-drop (stop - start) (drop start bytes)

  flatten-chunk_loop :
      (fuel pos : ℕ)
      → length bytes ≤ pos + fuel
      → flatten (chunk_loop bytes fuel pos) ≡ drop pos bytes
  unfolding chunk_loop flatten
  flatten-chunk_loop zero pos h = sym (drop_all pos bytes (omega arith))
  flatten-chunk_loop (suc fuel) pos h = elim (Bool-cases (ltb pos (length bytes))) [
    | inr over ↦ rw (over, chunk_loop) (sym (drop_all pos bytes (ground arith)))
    | inl more ↦
        let i = chunk_end-IsStop bytes pos (ground arith) in
        rw (more, chunk_loop)
          (rw (flatten-chunk_loop fuel (chunk_end bytes pos) (omega (arith, i.forward)))
            (slice-append-drop pos (chunk_end bytes pos) (omega (arith, i.forward))))
  ]

-- The chunks that `chunk_data` returns, joined in order, are the data: the loops end, and no byte
-- is lost, repeated or moved.
pub flatten-chunk_data : (bytes : Bytes) → flatten (chunk_data bytes) ≡ bytes
unfolding chunk_data
flatten-chunk_data bytes = flatten-chunk_loop bytes (length bytes) 0 (omega arith)
