-- ===== src/Merkle/Collision.antt =====
-- With a digest that has no collisions, lists of one length have one root only if they are equal.
use backupos.Base.{
  ℕ, zero, suc, ◌/◌, ◌%◌, ◌≡◌, refl, sym, ◌∙◌, List, [], ◌∷◌, ◌++◌, Bytes, arith, eqb, length, All,
  All-append, Bool-cases, inl, inr,
}
use backupos.Merkle.{last, pad, node_hash, root_hash}
use backupos.Merkle.Build.{length-pad}
use backupos.Merkle.Levels.{pair_hashes, root_of, root_hash-root_of}

-- A hex digest has 64 characters.
abbrev pub IsDigest : Bytes → Type 0
IsDigest h = length h ≡ 64

-- What the code relies on: `hashlib.sha256` gives 64 hex digits, and nobody has found two inputs
-- with one digest.
pub record IsCollisionFree (sha256 : Bytes → Bytes) : Type 0 where
  pub width : (x : Bytes) → length (sha256 x) ≡ 64
  pub injective : (x y : Bytes) → sha256 x ≡ sha256 y → x ≡ y

append_inj {ℓ} :
    {A : Type ℓ} (a b c d : List A) → length a ≡ length c → a ++ b ≡ c ++ d → (a ≡ c) × (b ≡ d)
append_inj [] b [] d e h = (refl, h)
append_inj [] b (z ∷ c) d e h = absurd (omega arith)
append_inj (x ∷ a) b [] d e h = absurd (omega arith)
append_inj (x ∷ a) b (z ∷ c) d e h = ground (arith, append_inj a b c d)

pad_injective {ℓ} :
    {A : Type ℓ} (xs ys : List A) → length xs ≡ length ys → pad xs ≡ pad ys → xs ≡ ys
unfolding pad
pad_injective [] [] e h = refl
pad_injective [] (y ∷ ys) e h = absurd (omega arith)
pad_injective (x ∷ xs) [] e h = absurd (omega arith)
pad_injective (x ∷ xs) (y ∷ ys) e h =
    ground (arith, append_inj (x ∷ xs) (last x xs ∷ []) (y ∷ ys) (last y ys ∷ []) e)

last-IsDigest : (x : Bytes) (xs : List Bytes) → IsDigest x → All IsDigest xs → IsDigest (last x xs)
last-IsDigest x [] h k = h
last-IsDigest x (y ∷ xs) h k = last-IsDigest y xs k.0 k.1

pad-IsDigest : (xs : List Bytes) → All IsDigest xs → All IsDigest (pad xs)
unfolding pad
pad-IsDigest [] h = tt
pad-IsDigest (x ∷ xs) h = elim (Bool-cases (eqb (suc (length xs) % 2) 1)) [
  | inl odd ↦
      rw odd (All-append IsDigest (x ∷ xs) (last x xs ∷ []) h (last-IsDigest x xs h.0 h.1, tt))
  | inr even ↦ rw even h
]

module _ (sha256 : Bytes → Bytes) (free : IsCollisionFree sha256) where
  pub node_hash_injective :
      (l r l' r' : Bytes)
      → IsDigest l
      → IsDigest l'
      → node_hash sha256 l r ≡ node_hash sha256 l' r'
      → (l ≡ l') × (r ≡ r')
  unfolding node_hash
  node_hash_injective l r l' r' w w' e =
      append_inj l r l' r' (w ∙ sym w') (free.injective (l ++ r) (l' ++ r') e)

  pair_hashes_injective :
      (xs ys : List Bytes)
      → All IsDigest xs
      → All IsDigest ys
      → length xs % 2 ≡ 0
      → length xs ≡ length ys
      → pair_hashes sha256 xs ≡ pair_hashes sha256 ys
      → xs ≡ ys
  unfolding pair_hashes
  pair_hashes_injective [] [] h k even e eq = refl
  pair_hashes_injective [] (y ∷ ys) h k even e eq = absurd (omega arith)
  pair_hashes_injective (x ∷ []) ys h k even e eq = absurd (omega arith)
  pair_hashes_injective (x ∷ x' ∷ xs) [] h k even e eq = absurd (omega arith)
  pair_hashes_injective (x ∷ x' ∷ xs) (y ∷ []) h k even e eq = absurd (omega arith)
  pair_hashes_injective (x ∷ x' ∷ xs) (y ∷ y' ∷ ys) h k even e eq =
      ground (arith, node_hash_injective x x' y y' h.0 k.0, pair_hashes_injective xs ys h.1.1 k.1.1)

  pair_hashes-IsDigest : (xs : List Bytes) → All IsDigest (pair_hashes sha256 xs)
  unfolding pair_hashes node_hash
  pair_hashes-IsDigest [] = tt
  pair_hashes-IsDigest (x ∷ []) = tt
  pair_hashes-IsDigest (x ∷ y ∷ xs) = (free.width (x ++ y), pair_hashes-IsDigest xs)

  length-pair_hashes : (xs : List Bytes) → length (pair_hashes sha256 xs) ≡ length xs / 2
  unfolding pair_hashes
  length-pair_hashes [] = refl
  length-pair_hashes (x ∷ []) = refl
  length-pair_hashes (x ∷ y ∷ xs) = omega (arith, length-pair_hashes xs)

  root_of_injective :
      (fuel : ℕ) (xs ys : List Bytes)
      → All IsDigest xs
      → All IsDigest ys
      → length xs ≡ length ys
      → root_of sha256 fuel xs ≡ root_of sha256 fuel ys
      → xs ≡ ys
  unfolding root_of
  root_of_injective zero xs ys h k e eq = eq
  root_of_injective (suc fuel) xs ys h k e eq = ground (
    arith,
    length-pad xs,
    length-pad ys,
    length-pair_hashes (pad xs),
    length-pair_hashes (pad ys),
    pad_injective xs ys e,
    pair_hashes_injective (pad xs) (pad ys) (pad-IsDigest xs h) (pad-IsDigest ys k),
    root_of_injective fuel (pair_hashes sha256 (pad xs)) (pair_hashes sha256 (pad ys))
        (pair_hashes-IsDigest (pad xs)) (pair_hashes-IsDigest (pad ys)),
  )

  -- Two lists of digests of one length have one root only if they are the same list.
  pub root_hash_injective :
      (xs ys : List Bytes)
      → All IsDigest xs
      → All IsDigest ys
      → length xs ≡ length ys
      → root_hash sha256 xs ≡ root_hash sha256 ys
      → xs ≡ ys
  root_hash_injective [] [] h k e eq = refl
  root_hash_injective [] (y ∷ ys) h k e eq = absurd (omega arith)
  root_hash_injective (x ∷ xs) [] h k e eq = absurd (omega arith)
  root_hash_injective (x ∷ xs) (y ∷ ys) h k e eq =
      root_of_injective (length (x ∷ xs)) (x ∷ xs) (y ∷ ys) h k e
        (ground (arith, root_hash-root_of sha256 x xs, root_hash-root_of sha256 y ys))
