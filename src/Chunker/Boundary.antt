-- ===== src/Chunker/Boundary.antt =====
-- Where chunks end: the criterion is a function of the 48 bytes before the boundary.
use Prim.Native.Nat.{min, bit_and}
use native.Mathlib.Decide.{ℕ_discrete, dec_le}
use backupos.Base.{
  ℕ, zero, suc, ◌+◌, ◌-◌, ◌%◌, ◌≤◌, ◌<◌, ◌≡◌, ◌≢◌, sym, ap, ◌∙◌, subst, ◌⊎◌, inl, inr, true, false,
  Bytes, arith, length, get_or, ltb, Bool-cases,
}
use backupos.Chunker.{
  Roll, window_size, min_chunk, max_chunk, target_mask, u64, rolling_hash, roll, fast_forward_loop,
  seeded, fast_forwarded, at_boundary, scan, chunk_end,
}
use backupos.Chunker.Bounds.{chunk_end-IsStop}
use backupos.Chunker.Rolling.{horner, IsInStep, roll-IsInStep, fast_forward_loop-IsInStep}
use backupos.Chunker.Seed.{rolling_hash-IsInStep}

-- The tested bits of the hash of the 48 bytes before `pos`.
abbrev pub fingerprint : Bytes → ℕ → ℕ
fingerprint bytes pos = bit_and (horner bytes (pos - window_size) window_size % u64) target_mask

-- A scan from `pos` ends at `stop` for one of three reasons, and passed no earlier fingerprint of 0.
record IsScanned (bytes : Bytes) (chunk_start pos stop : ℕ) : Type 0 where
  reason :
      (stop ≡ length bytes)
      ⊎ (chunk_start + max_chunk ≤ stop)
      ⊎ ((pos < stop) × (fingerprint bytes stop ≡ 0))
  first : (p : ℕ) → pos < p → p < stop → fingerprint bytes p ≢ 0

-- A chunk ends at `stop`: within the data and `MAX_CHUNK` bytes, and at the first position behind
-- its first `MIN_CHUNK` bytes where it may end.
pub record IsCutAt (bytes : Bytes) (chunk_start stop : ℕ) : Type 0 where
  pub within : stop ≤ length bytes
  pub short : stop ≤ chunk_start + max_chunk
  pub reason :
      (stop ≡ length bytes)
      ⊎ (stop ≡ chunk_start + max_chunk)
      ⊎ ((chunk_start + min_chunk < stop) × (fingerprint bytes stop ≡ 0))
  pub first : (p : ℕ) → chunk_start + min_chunk < p → p < stop → fingerprint bytes p ≢ 0

boundary_reason :
    (r : Roll) (len : ℕ)
    → at_boundary r len ≡ true
    → (max_chunk ≤ len) ⊎ (bit_and r.h target_mask ≡ 0)
unfolding at_boundary
boundary_reason r len h = ground arith

no_boundary :
    (r : Roll) (len : ℕ) → at_boundary r len ≡ false → min_chunk ≤ len → bit_and r.h target_mask ≢ 0
unfolding at_boundary
no_boundary r len h k = ground arith

IsScanned-later :
    {bytes : Bytes} {start pos stop : ℕ}
    → fingerprint bytes (pos + 1) ≢ 0
    → IsScanned bytes start (pos + 1) stop
    → IsScanned bytes start pos stop
IsScanned-later {bytes} {pos = pos} h c = record {
  reason = elim c.reason [
    | inl over ↦ inl over
    | inr (inl far) ↦ inr (inl far)
    | inr (inr (behind, zeros)) ↦ inr (inr (omega arith, zeros))
  ];
  first = λ p a b. elim (ℕ_discrete p (pos + 1)) [
    | yes here ↦ λ z. h (ap (fingerprint bytes) (sym here) ∙ z)
    | no later ↦ c.first p (omega arith) b
  ];
}

module _ (bytes : Bytes) (start : ℕ) where
  hash-fingerprint :
      (k pos : ℕ) (r : Roll)
      → IsInStep bytes start k r
      → pos ≡ start + k + window_size
      → bit_and r.h target_mask ≡ fingerprint bytes pos
  hash-fingerprint k pos r i e =
      ap (λ n. bit_and n target_mask)
        (i.hashed ∙ ap (λ n. horner bytes n window_size % u64) (omega arith))

  scan-IsScanned :
      (fuel k pos : ℕ) (r : Roll)
      → length bytes ≤ pos + fuel
      → pos ≤ length bytes
      → start + min_chunk ≤ pos
      → pos ≡ start + k + window_size
      → IsInStep bytes start k r
      → IsScanned bytes start pos (scan bytes fuel start pos r)
  unfolding scan
  scan-IsScanned zero k pos r f p m e i = record {
    reason = inl (omega arith);
    first = λ q a b. absurd (omega arith);
  }
  scan-IsScanned (suc fuel) k pos r f p m e i = elim (Bool-cases (ltb pos (length bytes))) [
    | inr over ↦
        rw (over, scan)
          (record { reason = inl (ground arith); first = λ q a b. absurd (omega arith) })
    | inl more ↦ elim (Bool-cases (at_boundary next (pos + 1 - start))) [
      | inl found ↦
          rw (more, found, scan)
            (record {
              reason = elim (boundary_reason next (pos + 1 - start) found) [
                | inl far ↦ inr (inl (omega arith))
                | inr zeros ↦ inr (
                    inr (
                      omega arith,
                      sym (hash-fingerprint (k + 1) (pos + 1) next step (omega arith)) ∙ zeros,
                    ))
              ];
              first = λ q a b. absurd (omega arith);
            })
      | inr none_yet ↦
          rw (more, none_yet, scan)
            (IsScanned-later
              (λ z.
                no_boundary next (pos + 1 - start) none_yet (omega arith)
                  (hash-fingerprint (k + 1) (pos + 1) next step (omega arith) ∙ z))
              (scan-IsScanned fuel (k + 1) (pos + 1) next (omega arith) (ground arith) (omega arith)
                (omega arith) step))
    ]
  ]
    where
      next : Roll
      next = roll (get_or bytes pos 0) r

      step : IsInStep bytes start (k + 1) next
      step =
          subst (λ n. IsInStep bytes start (k + 1) (roll (get_or bytes n 0) r)) (sym e)
            (roll-IsInStep bytes start k r i)

  fast_forwarded-IsInStep :
      (stop : ℕ)
      → stop ≡ start + min_chunk
      → stop ≤ length bytes
      → IsInStep bytes start (min_chunk - window_size) (fast_forwarded bytes start stop)
  unfolding fast_forwarded
  fast_forwarded-IsInStep stop e h =
      let rounds : min_chunk - window_size ≡ stop - (start + window_size) = omega arith in
      subst
        (λ n.
          IsInStep bytes start (min_chunk - window_size)
            (fast_forward_loop bytes n (start + window_size) (seeded (rolling_hash bytes start))))
        rounds
        (fast_forward_loop-IsInStep bytes start (min_chunk - window_size) 0 (start + window_size) _
          (omega arith) (rolling_hash-IsInStep bytes start (omega arith)))

chunk_end-IsScanned :
    (bytes : Bytes) (start : ℕ)
    → start < length bytes
    → IsScanned bytes start (start + min_chunk) (chunk_end bytes start)
chunk_end-IsScanned bytes start h = elim (dec_le (start + min_chunk) (length bytes)) [
  | yes long ↦
      unfold chunk_end in
      let stop = min (start + min_chunk) (length bytes) in
      let ahead : stop ≡ start + min_chunk = omega arith in
      subst (λ p. IsScanned bytes start p (chunk_end bytes start)) ahead
        (scan-IsScanned bytes start (length bytes - stop) (min_chunk - window_size) stop
          (fast_forwarded bytes start stop) (omega arith) (omega arith) (omega arith) (omega arith)
          (fast_forwarded-IsInStep bytes start stop ahead (omega arith)))
  | no short ↦
      let i = chunk_end-IsStop bytes start h in
      record {
        reason = inl (omega (arith, i.long, i.within));
        first = λ p a b. absurd (omega (arith, i.within));
      }
]

-- A chunk ends within the data and within `MAX_CHUNK` bytes: at the end of the data, at
-- `MAX_CHUNK` bytes, or at a position behind its first `MIN_CHUNK` bytes where the 48 bytes
-- before it, and no others, hash to a value whose lower 13 bits are 0. No earlier position behind
-- its first `MIN_CHUNK` bytes is such a position.
pub chunk_end-IsCutAt :
    (bytes : Bytes) (start : ℕ) → start < length bytes → IsCutAt bytes start (chunk_end bytes start)
chunk_end-IsCutAt bytes start h =
    let i = chunk_end-IsStop bytes start h in
    let c = chunk_end-IsScanned bytes start h in
    record {
      within = i.within;
      short = i.short;
      reason = elim c.reason [
        | inl over ↦ inl over
        | inr (inl far) ↦ inr (inl (omega (arith, i.short)))
        | inr (inr zeros) ↦ inr (inr zeros)
      ];
      first = c.first;
    }
