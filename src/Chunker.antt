-- ===== src/Chunker.antt =====
-- app/core/cdc.py: content-defined chunking. A bounds-checked read `data[i]` is `get_or data i 0`:
-- the loops only read below `len(data)`. `& 0xFFFFFFFFFFFFFFFF` is `% 2 ^ 64`, and a difference
-- that Python lets fall below 0 has the modulus added first.
pub mod Lossless
mod Bounds
mod Resume
mod Rolling
mod Seed
mod Boundary
mod Tests
use Prim.Native.Nat.{min, bit_and}
use backupos.Base.{
  ℕ, zero, suc, ◌+◌, ◌-◌, ◌*◌, ◌%◌, ◌^◌, Bool, true, false, ◌&&◌, ◌||◌, List, [], ◌∷◌, ◌++◌, Bytes,
  ltb, leb, eqb, length, get_or, set, take, drop, replicate, if◌then◌else◌,
}

abbrev pub window_size : ℕ
window_size = 48

abbrev pub min_chunk : ℕ
min_chunk = 512

abbrev pub max_chunk : ℕ
max_chunk = 8192

abbrev pub target_mask : ℕ
target_mask = 0x1FFF

abbrev pub poly : ℕ
poly = 0x3DA3358B4DC173

-- `_U64` is one less: the mask.
abbrev pub u64 : ℕ
u64 = 2 ^ 64

-- `poly_pow = (poly_pow * POLY) & _U64`, so many times.
unfoldable pub poly_pow_loop : ℕ → ℕ → ℕ
poly_pow_loop zero poly_pow = poly_pow
poly_pow_loop (suc n) poly_pow = poly_pow_loop n ((poly_pow * poly) % u64)

-- The entry of `out_table` at a byte.
unfoldable pub out_table : ℕ → ℕ
unfolding poly_pow_loop
out_table b = (b * poly_pow_loop window_size 1) % u64

-- The hash and the window over the bytes from `i` on; the first argument is the rounds left.
unfoldable pub seed_loop : Bytes → ℕ → ℕ → ℕ → Bytes → ℕ × Bytes
seed_loop bytes zero i h window = (h, window)
seed_loop bytes (suc n) i h window =
    let b = get_or bytes i 0 in seed_loop bytes n (i + 1) ((h * poly + b) % u64) (window ++ b ∷ [])

unfoldable pub pad_window : Bytes → Bytes
pad_window window = window ++ replicate (window_size - length window) 0

unfoldable pub rolling_hash : Bytes → ℕ → ℕ × Bytes
rolling_hash bytes start =
    let end = min (start + window_size) (length bytes) in
    let (h, window) = seed_loop bytes (end - start) start 0 [] in (h, pad_window window)

-- The three variables that the loops of `chunk_data` update for each byte.
pub record Roll : Type 0 where
  pub h : ℕ
  pub window : Bytes
  pub win_pos : ℕ

unfoldable pub roll : ℕ → Roll → Roll
unfolding out_table
roll in_byte r =
    let k = r.win_pos % window_size in
    let out_byte = get_or r.window k 0 in
    record {
      h = (r.h * poly + u64 - out_table out_byte + in_byte) % u64;
      window = set r.window k in_byte;
      win_pos = r.win_pos + 1;
    }

-- `for i in range(chunk_start + WINDOW_SIZE, fast_forward)`
unfoldable pub fast_forward_loop : Bytes → ℕ → ℕ → Roll → Roll
fast_forward_loop bytes zero i r = r
fast_forward_loop bytes (suc n) i r = fast_forward_loop bytes n (i + 1) (roll (get_or bytes i 0) r)

-- The two `break`s.
unfoldable pub at_boundary : Roll → ℕ → Bool
at_boundary r chunk_len =
    leb max_chunk chunk_len || (eqb (bit_and r.h target_mask) 0 && leb min_chunk chunk_len)

-- `while pos < n`, from the byte at `pos`; the result is the `pos` that the loop leaves.
unfoldable pub scan : Bytes → ℕ → ℕ → ℕ → Roll → ℕ
scan bytes zero chunk_start pos r = pos
scan bytes (suc fuel) chunk_start pos r = elim (ltb pos (length bytes)) [
  | false ↦ pos
  | true ↦ elim (at_boundary (roll (get_or bytes pos 0) r) (pos + 1 - chunk_start)) [
    | true ↦ pos + 1
    | false ↦ scan bytes fuel chunk_start (pos + 1) (roll (get_or bytes pos 0) r)
  ]
]

-- The loops' variables before the first byte that may end a chunk: the seed, with `win_pos = 0`,
-- advanced over the bytes up to `fast_forward`.
abbrev pub seeded : ℕ × Bytes → Roll
seeded (h, window) = record { h = h; window = window; win_pos = 0 }

unfoldable pub fast_forwarded : Bytes → ℕ → ℕ → Roll
fast_forwarded bytes chunk_start fast_forward =
    fast_forward_loop bytes (fast_forward - (chunk_start + window_size)) (chunk_start + window_size)
      (seeded (rolling_hash bytes chunk_start))

-- Where the chunk that starts at `chunk_start` ends: the value of `pos` after both loops.
unfoldable pub chunk_end : Bytes → ℕ → ℕ
chunk_end bytes chunk_start =
    let n = length bytes in
    let fast_forward = min (chunk_start + min_chunk) n in
    scan bytes (n - fast_forward) chunk_start fast_forward
      (fast_forwarded bytes chunk_start fast_forward)

-- `data[start:stop]`
abbrev pub slice : Bytes → ℕ → ℕ → Bytes
slice bytes start stop = take (stop - start) (drop start bytes)

-- `while pos < n` over the chunks.
unfoldable pub chunk_loop : Bytes → ℕ → ℕ → List Bytes
chunk_loop bytes zero pos = []
chunk_loop bytes (suc fuel) pos = elim (ltb pos (length bytes)) [
  | false ↦ []
  | true ↦ slice bytes pos (chunk_end bytes pos) ∷ chunk_loop bytes fuel (chunk_end bytes pos)
]

-- `if not data` is the loop that makes no round.
unfoldable pub chunk_data : Bytes → List Bytes
chunk_data bytes = chunk_loop bytes (length bytes) 0
