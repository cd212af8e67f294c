-- ===== src/Merkle/Levels.antt =====
-- The tree's root is computed by the digests alone, level by level.
use backupos.Base.{
  ℕ, zero, suc, ◌%◌, ◌≡◌, refl, sym, ap, ◌∙◌, true, false, List, [], ◌∷◌, map, map-append, Bytes,
  arith, ltb, eqb, length, length-map, Bool-cases, inl, inr,
}
use backupos.Merkle.{
  MerkleNode, leaf, hash, last, pad, node_hash, join, pair_up, next_layer, build_loop, root_hash,
}
use backupos.Merkle.Build.{build_root}

last-map {ℓ κ} :
    {A : Type ℓ} {B : Type κ} (f : A → B) (x : A) (xs : List A)
    → last (f x) (map f xs) ≡ f (last x xs)
last-map f x [] = refl
last-map f x (y ∷ xs) = last-map f y xs

pub pad-map {ℓ κ} :
    {A : Type ℓ} {B : Type κ} (f : A → B) (xs : List A) → pad (map f xs) ≡ map f (pad xs)
unfolding pad
pad-map f [] = refl
pad-map f (x ∷ xs) =
    rw (length-map f xs, last-map f x xs)
      (elim (Bool-cases (eqb (suc (length xs) % 2) 1)) [
        | inl odd ↦ rw (odd, map-append)
        | inr even ↦ rw even
      ])

module _ (sha256 : Bytes → Bytes) where
  -- The digests of the parents of a layer.
  unfoldable pub pair_hashes : List Bytes → List Bytes
  pair_hashes [] = []
  pair_hashes (l ∷ []) = []
  pair_hashes (l ∷ r ∷ hs) = node_hash sha256 l r ∷ pair_hashes hs

  unfoldable pub root_of : ℕ → List Bytes → List Bytes
  root_of zero hs = hs
  root_of (suc fuel) hs = elim (ltb 1 (length hs)) [
    | true ↦ root_of fuel (pair_hashes (pad hs))
    | false ↦ hs
  ]

  hashes-pair_up : (ns : List MerkleNode) → map hash (pair_up sha256 ns) ≡ pair_hashes (map hash ns)
  unfolding pair_up pair_hashes join hash
  hashes-pair_up [] = refl
  hashes-pair_up (l ∷ []) = refl
  hashes-pair_up (l ∷ r ∷ ns) = ap (λ t. node_hash sha256 (hash l) (hash r) ∷ t) (hashes-pair_up ns)

  hashes-build_loop :
      (fuel : ℕ) (ns : List MerkleNode)
      → map hash (build_loop sha256 fuel ns) ≡ root_of fuel (map hash ns)
  unfolding build_loop root_of next_layer
  hashes-build_loop zero ns = refl
  hashes-build_loop (suc fuel) ns = ground (
    arith,
    length-map hash ns,
    hashes-build_loop fuel (pair_up sha256 (pad ns)),
    hashes-pair_up (pad ns),
    pad-map hash ns,
  )

  hashes-leaves : (hs : List Bytes) → map hash (map leaf hs) ≡ hs
  unfolding hash
  hashes-leaves [] = refl
  hashes-leaves (h ∷ hs) = ap (λ t. h ∷ t) (hashes-leaves hs)

  -- The root's digest is what is left of the list of digests.
  pub root_hash-root_of :
      (h : Bytes) (hs : List Bytes)
      → root_of (length (h ∷ hs)) (h ∷ hs) ≡ root_hash sha256 (h ∷ hs) ∷ []
  unfolding root_hash
  root_hash-root_of h hs =
      let (root, e, b) = build_root sha256 h hs in
      rw (b, root_hash)
        ((rw (hashes-leaves (h ∷ hs)) at
            (sym (hashes-build_loop (length (h ∷ hs)) (map leaf (h ∷ hs)))))
          ∙ ap (map hash) e)
