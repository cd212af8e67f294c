-- ===== src/Merkle/Build.antt =====
-- The construction loop of the tree ends with one node, and more fuel changes nothing.
use backupos.Base.{
  ℕ, zero, suc, ◌+◌, ◌/◌, ◌%◌, ◌≤◌, ◌<◌, ◌≡◌, refl, some, List, [], ◌∷◌, map, Bytes, arith, length,
  length-append, length-map,
}
use backupos.Merkle.{MerkleNode, leaf, last, pad, pair_up, next_layer, build_loop, build}

pub length-pad {ℓ} : {A : Type ℓ} (xs : List A) → length (pad xs) ≡ length xs + length xs % 2
unfolding pad
length-pad [] = refl
length-pad (x ∷ xs) = ground (arith, length-append xs (last x xs ∷ []))

singleton-of-length {ℓ} : {A : Type ℓ} (xs : List A) → length xs ≡ 1 → (x : A) × (xs ≡ x ∷ [])
singleton-of-length [] e = absurd (omega arith)
singleton-of-length (x ∷ []) e = (x, refl)
singleton-of-length (x ∷ y ∷ xs) e = absurd (omega arith)

enough : (h : Bytes) (hs : List Bytes) → length (map leaf (h ∷ hs)) ≤ length (h ∷ hs)
enough h hs = omega (arith, length-map leaf (h ∷ hs))

module _ (sha256 : Bytes → Bytes) where
  length-pair_up : (ns : List MerkleNode) → length (pair_up sha256 ns) ≡ length ns / 2
  unfolding pair_up
  length-pair_up [] = refl
  length-pair_up (l ∷ []) = refl
  length-pair_up (l ∷ r ∷ ns) = omega (arith, length-pair_up ns)

  pub length-next_layer :
      (ns : List MerkleNode) → length (next_layer sha256 ns) ≡ (length ns + 1) / 2
  unfolding next_layer
  length-next_layer ns = omega (arith, length-pair_up (pad ns), length-pad ns)

  -- With fuel for every node, at most one node is left, and one if there was any.
  pub length-build_loop :
      (fuel : ℕ) (ns : List MerkleNode)
      → 0 < length ns
      → length ns ≤ fuel
      → length (build_loop sha256 fuel ns) ≡ 1
  unfolding build_loop
  length-build_loop zero ns pos h = absurd (omega arith)
  length-build_loop (suc fuel) ns pos h =
      ground (arith, length-next_layer ns, length-build_loop fuel (next_layer sha256 ns))

  -- Any fuel that suffices gives the same nodes.
  pub build_loop_fuel :
      (f g : ℕ) (ns : List MerkleNode)
      → length ns ≤ f
      → length ns ≤ g
      → build_loop sha256 f ns ≡ build_loop sha256 g ns
  unfolding build_loop
  build_loop_fuel zero zero ns h k = refl
  build_loop_fuel zero (suc g) ns h k = ground arith
  build_loop_fuel (suc f) zero ns h k = ground arith
  build_loop_fuel (suc f) (suc g) ns h k =
      ground (arith, length-next_layer ns, build_loop_fuel f g (next_layer sha256 ns))

  -- A list with digests in it has a root: the loop ends, with one node left over.
  pub build_root :
      (h : Bytes) (hs : List Bytes)
      → (root : MerkleNode) × (build_loop sha256 (length (h ∷ hs)) (map leaf (h ∷ hs)) ≡ root ∷ [])
        × (build sha256 (h ∷ hs) ≡ some root)
  unfolding build
  build_root h hs =
      let (root, e) = singleton-of-length _ (length-build_loop _ _ (omega arith) (enough h hs)) in
      (root, e, rw e)
