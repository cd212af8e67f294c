-- ===== src/Chunker/Bounds.antt =====
-- How long a chunk is, and that it ends within the data.
use backupos.Base.{
  ℕ, zero, suc, ◌+◌, ◌-◌, ◌≤◌, ◌<◌, ◌≡◌, refl, ◌⊎◌, inl, inr, true, false, List, [], ◌∷◌, Bytes,
  arith, ltb, length, length-take, length-drop, drop, get_or, Bool-cases,
}
use backupos.Chunker.{
  Roll, min_chunk, max_chunk, roll, at_boundary, scan, chunk_end, slice, chunk_loop, chunk_data,
}

-- Where a scan from `pos` may stop: from `pos` on, within the data, at a length of at most
-- `MAX_CHUNK`, and before the end of the data only at a length above `MIN_CHUNK`.
pub record IsStop (n chunk_start pos stop : ℕ) : Type 0 where
  pub forward : pos ≤ stop
  pub within : stop ≤ n
  pub short : stop ≤ chunk_start + max_chunk
  pub long : (stop ≡ n) ⊎ (chunk_start + min_chunk ≤ stop)

IsStop-later : {n s pos stop : ℕ} → IsStop n s (pos + 1) stop → IsStop n s pos stop
IsStop-later i = record { forward = omega arith; within = i.within; short = i.short; long = i.long }

IsStop-from : {n s p q stop : ℕ} → p ≤ q → IsStop n s q stop → IsStop n s p stop
IsStop-from h i = record {
  forward = omega arith;
  within = i.within;
  short = i.short;
  long = i.long;
}

boundary_long : (r : Roll) (len : ℕ) → at_boundary r len ≡ true → min_chunk ≤ len
unfolding at_boundary
boundary_long r len h = ground arith

no_boundary_short : (r : Roll) (len : ℕ) → at_boundary r len ≡ false → len < max_chunk
unfolding at_boundary
no_boundary_short r len h = ground arith

module _ (bytes : Bytes) where
  scan-IsStop :
      (fuel chunk_start pos : ℕ) (r : Roll)
      → length bytes ≤ pos + fuel
      → pos ≤ length bytes
      → chunk_start ≤ pos
      → pos < chunk_start + max_chunk
      → IsStop (length bytes) chunk_start pos (scan bytes fuel chunk_start pos r)
  unfolding scan
  scan-IsStop zero chunk_start pos r f p s m = omega arith
  scan-IsStop (suc fuel) chunk_start pos r f p s m = elim (Bool-cases (ltb pos (length bytes))) [
    | inr stop ↦ rw (stop, scan) (ground arith)
    | inl more ↦ elim (Bool-cases (at_boundary next (pos + 1 - chunk_start))) [
      | inl found ↦
          rw (more, found, scan) (ground (arith, boundary_long next (pos + 1 - chunk_start)))
      | inr none_yet ↦
          rw (more, none_yet, scan)
            (IsStop-later (
              scan-IsStop fuel chunk_start (pos + 1) next (omega arith) (ground arith) (omega arith)
                (step none_yet)))
    ]
  ]
    where
      next : Roll
      next = roll (get_or bytes pos 0) r

      step : at_boundary next (pos + 1 - chunk_start) ≡ false → pos + 1 < chunk_start + max_chunk
      step h = omega (arith, no_boundary_short next (pos + 1 - chunk_start) h)

  -- A chunk that starts within the data ends after its start.
  pub chunk_end-IsStop :
      (chunk_start : ℕ)
      → chunk_start < length bytes
      → IsStop (length bytes) chunk_start (chunk_start + 1) (chunk_end bytes chunk_start)
  unfolding chunk_end
  chunk_end-IsStop chunk_start h =
      IsStop-from (omega arith)
        (scan-IsStop _ chunk_start _ _ (omega arith) (omega arith) (omega arith) (omega arith))

-- Every chunk has a byte and at most `MAX_CHUNK`, and every chunk but the last at least
-- `MIN_CHUNK`.
abbrev pub IsCut : List Bytes → Type 0
IsCut [] = Unit
IsCut (c ∷ cs) =
    (0 < length c) × (length c ≤ max_chunk) × ((cs ≡ []) ⊎ (min_chunk ≤ length c)) × IsCut cs

module _ (bytes : Bytes) where
  pub length-slice :
      (start stop : ℕ)
      → start ≤ stop
      → stop ≤ length bytes
      → length (slice bytes start stop) ≡ stop - start
  length-slice start stop h k =
      omega (arith, length-take (stop - start) (drop start bytes), length-drop start bytes)

  chunk_loop-end : (fuel : ℕ) → chunk_loop bytes fuel (length bytes) ≡ []
  unfolding chunk_loop
  chunk_loop-end zero = refl
  chunk_loop-end (suc fuel) = ground arith

  chunk_loop-IsCut : (fuel pos : ℕ) → IsCut (chunk_loop bytes fuel pos)
  unfolding chunk_loop
  chunk_loop-IsCut zero pos = tt
  chunk_loop-IsCut (suc fuel) pos = elim (Bool-cases (ltb pos (length bytes))) [
    | inr over ↦ rw (over, chunk_loop) tt
    | inl more ↦
        rw (more, chunk_loop)
          (first (chunk_end-IsStop bytes pos (ground arith))
            (chunk_loop-IsCut fuel (chunk_end bytes pos)))
  ]
    where
      first :
          IsStop (length bytes) pos (pos + 1) (chunk_end bytes pos)
          → IsCut (chunk_loop bytes fuel (chunk_end bytes pos))
          → IsCut
              (slice bytes pos (chunk_end bytes pos) ∷ chunk_loop bytes fuel (chunk_end bytes pos))
      first i rest = (
        omega (arith, length-slice pos (chunk_end bytes pos) (omega arith) i.within),
        omega (arith, length-slice pos (chunk_end bytes pos) (omega arith) i.within),
        elim i.long [
          | inl at_end ↦ inl (rw at_end (chunk_loop-end fuel))
          | inr far ↦
              inr (omega (arith, length-slice pos (chunk_end bytes pos) (omega arith) i.within))
        ],
        rest,
      )

-- Every chunk that `chunk_data` returns has between 1 and `MAX_CHUNK` bytes, and every chunk but
-- the last has at least `MIN_CHUNK`.
pub chunk_data-IsCut : (bytes : Bytes) → IsCut (chunk_data bytes)
unfolding chunk_data
chunk_data-IsCut bytes = chunk_loop-IsCut bytes (length bytes) 0
