-- ===== src/Merkle/Sample.antt =====
-- A digest function that meets `IsCollisionFree`, for the examples: the first of its 64 numbers
-- codes the input, and the others are 0.
use backupos.Base.{ℕ, zero, suc, ◌+◌, ◌*◌, ◌≡◌, ◌≢◌, refl, [], ◌∷◌, Bytes, arith, replicate}
use backupos.Merkle.Collision.{IsCollisionFree}

-- m * 2 ^ a
shift : ℕ → ℕ → ℕ
shift zero m = m
shift (suc a) m = 2 * shift a m

number : Bytes → ℕ
number [] = 0
number (a ∷ x) = shift a (2 * number x + 1)

shift_injective : (a b m n : ℕ) → shift a (2 * m + 1) ≡ shift b (2 * n + 1) → (a ≡ b) × (m ≡ n)
unfolding shift
shift_injective zero zero m n e = omega arith
shift_injective zero (suc b) m n e = absurd (omega arith)
shift_injective (suc a) zero m n e = absurd (omega arith)
shift_injective (suc a) (suc b) m n e = omega (arith, shift_injective a b m n (omega arith))

shift_pos : (a m : ℕ) → shift a (2 * m + 1) ≢ 0
unfolding shift
shift_pos zero m e = omega arith
shift_pos (suc a) m e = shift_pos a m (omega arith)

number_injective : (x y : Bytes) → number x ≡ number y → x ≡ y
unfolding number
number_injective [] [] e = refl
number_injective [] (b ∷ y) e = absurd (shift_pos b (number y) (omega arith))
number_injective (a ∷ x) [] e = absurd (shift_pos a (number x) (omega arith))
number_injective (a ∷ x) (b ∷ y) e =
    let (same, rest) = shift_injective a b (number x) (number y) e in
    cc (same, number_injective x y rest)

unfoldable pub sample_sha256 : Bytes → Bytes
unfolding number shift
sample_sha256 x = number x ∷ replicate 63 0

pub sample-IsCollisionFree : IsCollisionFree sample_sha256
unfolding sample_sha256
sample-IsCollisionFree = record {
  width = λ x. refl;
  injective = λ x y e. number_injective x y (cc e);
}

-- A chunk digest of the examples, of 64 numbers of which the second is not 0.
abbrev pub chunk_digest : ℕ → Bytes
chunk_digest n = n ∷ 1 ∷ replicate 62 7
