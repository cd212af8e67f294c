-- ===== src/Chunker/Rolling.antt =====
-- The rolling hash is in step with its window: it is the hash of the last 48 bytes, and of nothing
-- before them.
use native.Mathlib.Decide.{dec_lt}
use backupos.Base.{
  ℕ, zero, suc, ◌+◌, ◌-◌, ◌*◌, ◌/◌, ◌%◌, ◌<◌, ◌≡◌, ◌≢◌, refl, sym, ap, ◌∙◌, subst, List, [], ◌∷◌,
  Bytes, arith, length, get_or, set,
}
use backupos.Chunker.{Roll, window_size, poly, u64, poly_pow_loop, roll, fast_forward_loop}

-- The polynomial of `n` bytes from `i` on, the last with weight 1, as a number without a bound.
unfoldable pub horner : Bytes → ℕ → ℕ → ℕ
horner bytes i zero = 0
horner bytes i (suc n) = horner bytes i n * poly + get_or bytes (i + n) 0

poly_power : ℕ → ℕ
poly_power zero = 1
poly_power (suc n) = poly_power n * poly

i_zero : (i : ℕ) → i + 0 ≡ i
i_zero i = omega arith

shift_index : (i n : ℕ) → i + suc n ≡ i + 1 + n
shift_index i n = omega arith

-- The first byte has the weight POLY^n.
horner-first :
    (bytes : Bytes) (i n : ℕ)
    → horner bytes i (suc n) ≡ get_or bytes i 0 * poly_power n + horner bytes (i + 1) n
unfolding horner poly_power
horner-first bytes i zero = omega (arith, ap (λ k. get_or bytes k 0) (i_zero i))
horner-first bytes i (suc n) = omega (
  arith,
  ap (λ k. get_or bytes k 0) (shift_index i n),
  ap (λ t. t * poly) (horner-first bytes i n),
)

pub horner-suc :
    (bytes : Bytes) (i n : ℕ)
    → horner bytes i (suc n) ≡ horner bytes i n * poly + get_or bytes (i + n) 0
unfolding horner
horner-suc bytes i n = refl

-- Moving the window by one byte.
horner-next :
    (bytes : Bytes) (i n : ℕ)
    → horner bytes (i + 1) n + get_or bytes i 0 * poly_power n
      ≡ horner bytes i n * poly + get_or bytes (i + n) 0
horner-next bytes i n = omega (arith, horner-first bytes i n, horner-suc bytes i n)

power_of_window : poly_pow_loop window_size 1 ≡ poly_power window_size % u64
unfolding poly_pow_loop poly_power
power_of_window = refl

-- Taking the outgoing byte's entry of the table off is subtracting its term, modulo 2^64.
mod_step :
    (h big small out power q r incoming : ℕ)
    → h ≡ big % u64
    → small + out * power ≡ big * poly + incoming
    → power ≡ q * u64 + r
    → (h * poly + u64 - (out * r) % u64 + incoming) % u64 ≡ small % u64
mod_step h big small out power q r incoming e f g = omega (arith, ap (λ t. out * t) g)

-- After the bytes from `start` on, and `k` more behind the window: the hash is the polynomial of
-- the last 48 bytes, and the window holds them, the oldest at `win_pos % 48`.
pub record IsInStep (bytes : Bytes) (start k : ℕ) (r : Roll) : Type 0 where
  pub position : r.win_pos ≡ k
  pub hashed : r.h ≡ horner bytes (start + k) window_size % u64
  pub sized : length r.window ≡ window_size
  pub held :
      (i : ℕ)
      → i < window_size
      → get_or r.window ((k + i) % window_size) 0 ≡ get_or bytes (start + k + i) 0

module _ {ℓ} {A : Type ℓ} where
  length-set : (xs : List A) (i : ℕ) (v : A) → length (set xs i v) ≡ length xs
  length-set [] i v = refl
  length-set (x ∷ xs) zero v = refl
  length-set (x ∷ xs) (suc i) v = ap suc (length-set xs i v)

  get_or-set_self : (xs : List A) (i : ℕ) (v d : A) → i < length xs → get_or (set xs i v) i d ≡ v
  get_or-set_self [] i v d h = absurd (omega arith)
  get_or-set_self (x ∷ xs) zero v d h = refl
  get_or-set_self (x ∷ xs) (suc i) v d h = get_or-set_self xs i v d (omega arith)

  get_or-set_ne :
      (xs : List A) (i j : ℕ) (v d : A) → i ≢ j → get_or (set xs i v) j d ≡ get_or xs j d
  get_or-set_ne [] i j v d h = refl
  get_or-set_ne (x ∷ xs) zero zero v d h = absurd (h refl)
  get_or-set_ne (x ∷ xs) zero (suc j) v d h = refl
  get_or-set_ne (x ∷ xs) (suc i) zero v d h = refl
  get_or-set_ne (x ∷ xs) (suc i) (suc j) v d h = get_or-set_ne xs i j v d (λ e. h (ap suc e))

module _ (bytes : Bytes) (start : ℕ) where
  oldest :
      (k : ℕ) (r : Roll)
      → IsInStep bytes start k r
      → get_or r.window (r.win_pos % window_size) 0 ≡ get_or bytes (start + k) 0
  oldest k r i =
      ap (λ n. get_or r.window n 0) (omega (arith, i.position))
      ∙ i.held 0 (omega arith)
      ∙ ap (λ n. get_or bytes n 0) (omega arith)

  roll-hashed :
      (k : ℕ) (r : Roll)
      → IsInStep bytes start k r
      → (roll (get_or bytes (start + k + window_size) 0) r).h
        ≡ horner bytes (start + k + 1) window_size % u64
  unfolding roll
  roll-hashed k r i = rw (oldest k r i) (
      mod_step r.h (horner bytes (start + k) window_size) _ (get_or bytes (start + k) 0)
        (poly_power window_size) (poly_power window_size / u64) (poly_pow_loop window_size 1) _
        i.hashed (horner-next bytes (start + k) window_size) (omega (arith, power_of_window)))

  roll-held :
      (k : ℕ) (r : Roll) (j : ℕ)
      → IsInStep bytes start k r
      → j < window_size
      → get_or
          (roll (get_or bytes (start + k + window_size) 0) r).window
          ((k + 1 + j) % window_size)
          0
        ≡ get_or bytes (start + (k + 1) + j) 0
  unfolding roll
  roll-held k r j i h = elim (dec_lt j 47) [
    | yes p ↦
        get_or-set_ne r.window _ _ _ 0 (omega (arith, i.position))
        ∙ ap (λ n. get_or r.window n 0) (omega arith)
        ∙ i.held (j + 1) (omega arith)
        ∙ ap (λ n. get_or bytes n 0) (omega arith)
    | no p ↦
        ap
          (λ n.
            get_or
              (set r.window (r.win_pos % window_size) (get_or bytes (start + k + window_size) 0)) n
              0)
          (omega (arith, i.position))
        ∙ get_or-set_self r.window (r.win_pos % window_size) _ 0 (omega (arith, i.sized))
        ∙ ap (λ n. get_or bytes n 0) (omega arith)
  ]

  pub roll-IsInStep :
      (k : ℕ) (r : Roll)
      → IsInStep bytes start k r
      → IsInStep bytes start (k + 1) (roll (get_or bytes (start + k + window_size) 0) r)
  roll-IsInStep k r i = record {
    position = unfold roll in ap (λ n. n + 1) i.position;
    hashed = roll-hashed k r i ∙ ap (λ n. horner bytes n window_size % u64) (omega arith);
    sized = unfold roll in (length-set r.window _ _ ∙ i.sized);
    held = λ j h. roll-held k r j i h;
  }

  pub fast_forward_loop-IsInStep :
      (n k i : ℕ) (r : Roll)
      → i ≡ start + k + window_size
      → IsInStep bytes start k r
      → IsInStep bytes start (k + n) (fast_forward_loop bytes n i r)
  unfolding fast_forward_loop
  fast_forward_loop-IsInStep zero k i r e s = subst (λ m. IsInStep bytes start m r) (omega arith) s
  fast_forward_loop-IsInStep (suc n) k i r e s =
      subst (λ m. IsInStep bytes start m (fast_forward_loop bytes (suc n) i r)) (omega arith)
        (fast_forward_loop-IsInStep n (k + 1) (i + 1) (roll (get_or bytes i 0) r) (omega arith) (
          subst (λ m. IsInStep bytes start (k + 1) (roll (get_or bytes m 0) r)) (sym e)
            (roll-IsInStep k r s)))
