-- ===== src/Chunker/Seed.antt =====
-- The seed of the rolling hash is the polynomial of a chunk's first bytes, and its window is them.
use backupos.Base.{
  ℕ, zero, suc, ◌+◌, ◌-◌, ◌*◌, ◌%◌, ◌≤◌, ◌<◌, ◌≡◌, refl, sym, ap, ◌∙◌, subst, [], ◌∷◌, ◌++◌, Bytes,
  arith, length, length-append, append-nil, get_or, replicate,
}
use native.Mathlib.Decide.{dec_lt}
use backupos.Chunker.{window_size, poly, u64, seed_loop, pad_window, rolling_hash, seeded}
use backupos.Chunker.Rolling.{horner, horner-suc, IsInStep}

pub record HasRead (bytes : Bytes) (start m : ℕ) (s : ℕ × Bytes) : Type 0 where
  pub hashed : s.0 ≡ horner bytes start m % u64
  pub sized : length s.1 ≡ m
  pub held : (j : ℕ) → j < m → get_or s.1 j 0 ≡ get_or bytes (start + j) 0

get_or-append_left :
    (xs : Bytes) (b j : ℕ) → j < length xs → get_or (xs ++ b ∷ []) j 0 ≡ get_or xs j 0
get_or-append_left [] b j h = elim h [ ]
get_or-append_left (x ∷ xs) b zero h = refl
get_or-append_left (x ∷ xs) b (suc j) h = get_or-append_left xs b j (omega arith)

get_or-append_last : (xs : Bytes) (b j : ℕ) → j ≡ length xs → get_or (xs ++ b ∷ []) j 0 ≡ b
get_or-append_last [] b zero e = refl
get_or-append_last [] b (suc j) e = absurd (omega arith)
get_or-append_last (x ∷ xs) b zero e = absurd (omega arith)
get_or-append_last (x ∷ xs) b (suc j) e = get_or-append_last xs b j (omega arith)

plus_one : (m : ℕ) → m + 1 ≡ suc m
plus_one m = omega arith

seed_step :
    (h big small b c : ℕ)
    → h ≡ big % u64
    → b ≡ c
    → small ≡ big * poly + c
    → (h * poly + b) % u64 ≡ small % u64
seed_step h big small b c e f g = omega arith

module _ (bytes : Bytes) (start : ℕ) where
  HasRead-next :
      (m i h : ℕ) (window : Bytes)
      → i ≡ start + m
      → HasRead bytes start m (h, window)
      → HasRead bytes start
          (m + 1)
          ((h * poly + get_or bytes i 0) % u64, window ++ get_or bytes i 0 ∷ [])
  HasRead-next m i h window e r = record {
    hashed =
        seed_step h (horner bytes start m) _ _ _ r.hashed (ap (λ n. get_or bytes n 0) e)
          (ap (horner bytes start) (plus_one m) ∙ horner-suc bytes start m);
    sized = length-append window (get_or bytes i 0 ∷ []) ∙ omega (arith, r.sized);
    held = λ j p. elim (dec_lt j m) [
      | yes q ↦ get_or-append_left window (get_or bytes i 0) j (omega (arith, r.sized)) ∙ r.held j q
      | no q ↦
          get_or-append_last window (get_or bytes i 0) j (omega (arith, r.sized))
          ∙ ap (λ n. get_or bytes n 0) (omega arith)
    ];
  }

  seed_loop-HasRead :
      (n m i h : ℕ) (window : Bytes)
      → i ≡ start + m
      → HasRead bytes start m (h, window)
      → HasRead bytes start (m + n) (seed_loop bytes n i h window)
  unfolding seed_loop
  seed_loop-HasRead zero m i h window e r =
      subst (λ k. HasRead bytes start k (h, window)) (omega arith) r
  seed_loop-HasRead (suc n) m i h window e r =
      subst (λ k. HasRead bytes start k (seed_loop bytes (suc n) i h window)) (omega arith)
        (seed_loop-HasRead n (m + 1) (i + 1) _ _ (omega arith) (HasRead-next m i h window e r))

  seed-HasRead : HasRead bytes start window_size (seed_loop bytes window_size start 0 [])
  seed-HasRead =
      seed_loop-HasRead window_size 0 start 0 [] (omega arith)
        (record { hashed = unfold horner in refl; sized = refl; held = λ j p. elim p [ ] })

  HasRead-IsInStep :
      (s : ℕ × Bytes) → HasRead bytes start window_size s → IsInStep bytes start 0 (seeded s)
  HasRead-IsInStep s r = record {
    position = refl;
    hashed = r.hashed ∙ ap (λ n. horner bytes n window_size % u64) (omega arith);
    sized = r.sized;
    held = λ i p.
        ap (λ n. get_or s.1 n 0) (omega arith)
        ∙ r.held i p
        ∙ ap (λ n. get_or bytes n 0) (omega arith);
  }

  pad_full : (window : Bytes) → length window ≡ window_size → pad_window window ≡ window
  unfolding pad_window
  pad_full window e =
      let none_left : window_size - length window ≡ 0 = omega arith in
      ap (λ n. window ++ replicate n 0) none_left ∙ append-nil window

  -- Where 48 bytes are left, the window needs no padding.
  pub rolling_hash-IsInStep :
      start + window_size ≤ length bytes
      → IsInStep bytes start 0 (seeded (rolling_hash bytes start))
  unfolding rolling_hash
  rolling_hash-IsInStep h =
      let s = seed_loop bytes window_size start 0 [] in
      subst
        (λ n.
          IsInStep bytes start 0
            (seeded (let s' = seed_loop bytes n start 0 [] in (s'.0, pad_window s'.1))))
        (omega arith)
        (subst (λ w. IsInStep bytes start 0 (seeded (s.0, w)))
          (sym (pad_full s.1 seed-HasRead.sized)) (HasRead-IsInStep s seed-HasRead))
