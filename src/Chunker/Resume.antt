-- ===== src/Chunker/Resume.antt =====
-- Chunking depends on the content alone: after a boundary it goes on as if the data began there.
use Prim.Native.Nat.{min}
use mathlib.Core.List.{head-eq_of_cons-eq, tail-eq_of_cons-eq}
use backupos.Base.{
  ℕ, zero, suc, ◌+◌, ◌-◌, ◌≤◌, ◌≡◌, refl, sym, ap, ◌∙◌, inl, inr, List, [], ◌∷◌, Bytes, arith, ltb,
  length, length-drop, get_or, get_or-drop, drop, drop-drop, take, Bool-cases,
}
use backupos.Chunker.{
  Roll, window_size, min_chunk, seed_loop, pad_window, rolling_hash, roll, fast_forward_loop,
  seeded, fast_forwarded, scan, chunk_end, slice, chunk_loop, chunk_data,
}
use backupos.Chunker.Bounds.{IsStop, chunk_end-IsStop, length-slice}

module _ (bytes : Bytes) (s : ℕ) where
  abbrev rest : Bytes
  rest = drop s bytes

  seed_loop-drop :
      (n i j h : ℕ) (window : Bytes)
      → j ≡ s + i
      → seed_loop bytes n j h window ≡ seed_loop rest n i h window
  unfolding seed_loop
  seed_loop-drop zero i j h window e = refl
  seed_loop-drop (suc n) i j h window e =
      rw (e, ← get_or-drop s i bytes 0) (seed_loop-drop n (i + 1) (s + i + 1) _ _ (omega arith))

  fast_forward_loop-drop :
      (n i j : ℕ) (r : Roll)
      → j ≡ s + i
      → fast_forward_loop bytes n j r ≡ fast_forward_loop rest n i r
  unfolding fast_forward_loop
  fast_forward_loop-drop zero i j r e = refl
  fast_forward_loop-drop (suc n) i j r e =
      rw (e, ← get_or-drop s i bytes 0)
        (fast_forward_loop-drop n (i + 1) (s + i + 1) _ (omega arith))

  scan-drop :
      (fuel start pos start' pos' : ℕ) (r : Roll)
      → start' ≡ s + start
      → pos' ≡ s + pos
      → s ≤ length bytes
      → scan bytes fuel start' pos' r ≡ s + scan rest fuel start pos r
  unfolding scan
  scan-drop zero start pos start' pos' r e e' h = e'
  scan-drop (suc fuel) start pos start' pos' r e e' h = ground (
    arith,
    get_or-drop s pos bytes 0,
    length-drop s bytes,
    same_length,
    scan-drop fuel start (pos + 1) start' (pos' + 1) (roll (get_or rest pos 0) r) e (omega arith) h,
  )
    where
      same_length : pos' + 1 - start' ≡ pos + 1 - start
      same_length = omega arith

  rolling_hash-drop :
      (start start' : ℕ)
      → start' ≡ s + start
      → s ≤ length bytes
      → rolling_hash bytes start' ≡ rolling_hash rest start
  unfolding rolling_hash
  rolling_hash-drop start start' e h =
      let rounds : min (start' + window_size) (length bytes) - start'
          ≡ min (start + window_size) (length rest) - start =
        omega (arith, length-drop s bytes) in
      ap (λ p. (p.0, pad_window p.1))
        (ap (λ n. seed_loop bytes n start' 0 []) rounds
          ∙ seed_loop-drop (min (start + window_size) (length rest) - start) start start' 0 [] e)

  fast_forwarded-drop :
      (start start' stop stop' : ℕ)
      → start' ≡ s + start
      → stop' ≡ s + stop
      → s ≤ length bytes
      → fast_forwarded bytes start' stop' ≡ fast_forwarded rest start stop
  unfolding fast_forwarded
  fast_forwarded-drop start start' stop stop' e e' h =
      ap
        (λ n. fast_forward_loop bytes n (start' + window_size) (seeded (rolling_hash bytes start')))
        (omega arith)
      ∙ ap
          (λ p.
            fast_forward_loop bytes (stop - (start + window_size)) (start' + window_size)
              (seeded p))
          (rolling_hash-drop start start' e h)
      ∙ fast_forward_loop-drop (stop - (start + window_size)) (start + window_size)
          (start' + window_size) (seeded (rolling_hash rest start)) (omega arith)

  chunk_end-drop :
      (start start' : ℕ)
      → start' ≡ s + start
      → s ≤ length bytes
      → chunk_end bytes start' ≡ s + chunk_end rest start
  unfolding chunk_end
  chunk_end-drop start start' e h =
      let stop = min (start + min_chunk) (length rest) in
      let stop' = min (start' + min_chunk) (length bytes) in
      let moved : stop' ≡ s + stop = omega (arith, length-drop s bytes) in
      ap (λ n. scan bytes n start' stop' (fast_forwarded bytes start' stop'))
        (omega (arith, length-drop s bytes))
      ∙ ap (scan bytes (length rest - stop) start' stop')
          (fast_forwarded-drop start start' stop stop' e moved h)
      ∙ scan-drop (length rest - stop) start stop start' stop' (fast_forwarded rest start stop) e
          moved h

  slice-drop :
      (start stop start' stop' : ℕ)
      → start' ≡ s + start
      → stop' ≡ s + stop
      → slice bytes start' stop' ≡ slice rest start stop
  slice-drop start stop start' stop' e e' =
      ap (λ n. take n (drop start' bytes)) (omega arith)
      ∙ ap (take (stop - start)) (ap (λ n. drop n bytes) e ∙ sym (drop-drop s start bytes))

  chunk_loop-drop :
      (fuel pos pos' : ℕ)
      → pos' ≡ s + pos
      → s ≤ length bytes
      → chunk_loop bytes fuel pos' ≡ chunk_loop rest fuel pos
  unfolding chunk_loop
  chunk_loop-drop zero pos pos' e h = refl
  chunk_loop-drop (suc fuel) pos pos' e h =
      let stops = chunk_end-drop pos pos' e h in
      ground (
        arith,
        length-drop s bytes,
        stops,
        slice-drop pos (chunk_end rest pos) pos' (chunk_end bytes pos') e stops,
        chunk_loop-drop fuel (chunk_end rest pos) (chunk_end bytes pos') stops h,
      )

module _ (bytes : Bytes) where
  chunk_loop_fuel :
      (f g pos : ℕ)
      → length bytes ≤ pos + f
      → length bytes ≤ pos + g
      → chunk_loop bytes f pos ≡ chunk_loop bytes g pos
  unfolding chunk_loop
  chunk_loop_fuel zero zero pos h k = refl
  chunk_loop_fuel zero (suc g) pos h k = ground arith
  chunk_loop_fuel (suc f) zero pos h k = ground arith
  chunk_loop_fuel (suc f) (suc g) pos h k = elim (Bool-cases (ltb pos (length bytes))) [
    | inr over ↦ rw (over, chunk_loop)
    | inl more ↦
        let i = chunk_end-IsStop bytes pos (ground arith) in
        rw (more, chunk_loop)
          (ap (λ cs. slice bytes pos (chunk_end bytes pos) ∷ cs)
            (chunk_loop_fuel f g (chunk_end bytes pos) (omega (arith, i.forward))
              (omega (arith, i.forward))))
  ]

-- The chunks after the first are those of the data after the first chunk: what stands before a
-- boundary has no part in the boundaries behind it, so data that continues alike is cut alike.
pub chunk_data-resume :
    (bytes c : Bytes) (cs : List Bytes)
    → chunk_data bytes ≡ c ∷ cs
    → chunk_data (drop (length c) bytes) ≡ cs
unfolding chunk_data chunk_loop
chunk_data-resume [] c cs e = cc
chunk_data-resume (b ∷ bytes) c cs e =
    ap (λ n. chunk_data (drop n whole)) first_length
    ∙ chunk_loop_fuel (drop stop whole) (length (drop stop whole)) (length bytes) 0 (omega arith)
        (omega (arith, length-drop stop whole, i.forward))
    ∙ sym (chunk_loop-drop whole stop (length bytes) 0 stop (omega arith) i.within)
    ∙ tail-eq_of_cons-eq parts
  where
    whole : Bytes
    whole = b ∷ bytes

    stop : ℕ
    stop = chunk_end whole 0

    i : IsStop (length whole) 0 1 stop
    i = chunk_end-IsStop whole 0 (omega arith)

    first_round : chunk_data whole ≡ slice whole 0 stop ∷ chunk_loop whole (length bytes) stop
    first_round = ground arith

    parts :
        ◌≡◌ {A = List Bytes} (slice whole 0 stop ∷ chunk_loop whole (length bytes) stop) (c ∷ cs)
    parts = sym first_round ∙ e

    first_length : length c ≡ stop
    first_length =
        ap length (sym (head-eq_of_cons-eq parts))
        ∙ length-slice whole 0 stop (omega arith) i.within
        ∙ omega arith
