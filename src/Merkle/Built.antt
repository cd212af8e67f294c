-- ===== src/Merkle/Built.antt =====
-- What holds of every node that the construction makes: digests are those of the children, and
-- the leaves are the chunks that it was given.
use backupos.Base.{
  ℕ, zero, suc, ◌%◌, ◌≡◌, ◌≢◌, refl, sym, ap, ◌∙◌, subst, true, ◌||◌, some, List, [], ◌∷◌, ◌++◌,
  map, Bytes, bytes_eq, arith, ltb, eqb, Bool-cases, inl, inr, contains, contains-append, length,
  length-append, All, All-append,
}
use mathlib.Core.Option.{some-injective}
use backupos.Merkle.{
  MerkleNode, leaf, parent, hash, last, pad, node_hash, join, pair_up, next_layer, build_loop,
  build,
}
use backupos.Merkle.Build.{build_root, length-pad}
use backupos.Merkle.Collision.{IsDigest, IsCollisionFree, node_hash_injective}

-- The chunk digests at the leaves, from left to right, with those of duplicated nodes.
unfoldable pub leaves : MerkleNode → List Bytes
leaves (leaf h) = h ∷ []
leaves (parent h l r) = leaves l ++ leaves r

layer_leaves : List MerkleNode → List Bytes
layer_leaves [] = []
layer_leaves (n ∷ ns) = leaves n ++ layer_leaves ns

module _ (x : Bytes) where
  contains-layer_leaves-append :
      (ns ms : List MerkleNode)
      → contains (layer_leaves (ns ++ ms)) x
        ≡ (contains (layer_leaves ns) x || contains (layer_leaves ms) x)
  unfolding layer_leaves
  contains-layer_leaves-append [] ms = refl
  contains-layer_leaves-append (n ∷ ns) ms = ground (
    arith,
    contains-layer_leaves-append ns ms,
    contains-append (leaves n) (layer_leaves ns) x,
    contains-append (leaves n) (layer_leaves (ns ++ ms)) x,
  )

  last_among :
      (n : MerkleNode) (ns : List MerkleNode)
      → contains (leaves (last n ns)) x ≡ true
      → contains (layer_leaves (n ∷ ns)) x ≡ true
  unfolding layer_leaves
  last_among n [] h = ground (arith, contains-append (leaves n) [] x)
  last_among n (m ∷ ns) h =
      ground (arith, last_among m ns h, contains-append (leaves n) (layer_leaves (m ∷ ns)) x)

  contains-pad :
      (ns : List MerkleNode) → contains (layer_leaves (pad ns)) x ≡ contains (layer_leaves ns) x
  unfolding pad layer_leaves
  contains-pad [] = refl
  contains-pad (n ∷ ns) = ground (
    arith,
    contains-layer_leaves-append (n ∷ ns) (last n ns ∷ []),
    last_among n ns,
    contains-append (leaves (last n ns)) [] x,
  )

  contains-only : (n : MerkleNode) → contains (layer_leaves (n ∷ [])) x ≡ contains (leaves n) x
  unfolding layer_leaves
  contains-only n = ground (arith, contains-append (leaves n) [] x)

module _ (sha256 : Bytes → Bytes) (x : Bytes) where
  contains-pair_up :
      (ns : List MerkleNode)
      → length ns % 2 ≡ 0
      → contains (layer_leaves (pair_up sha256 ns)) x ≡ contains (layer_leaves ns) x
  unfolding pair_up join layer_leaves leaves
  contains-pair_up [] e = refl
  contains-pair_up (l ∷ []) e = absurd (omega arith)
  contains-pair_up (l ∷ r ∷ ns) e = ground (
    arith,
    contains-pair_up ns (omega arith),
    contains-append (leaves l ++ leaves r) (layer_leaves (pair_up sha256 ns)) x,
    contains-append (leaves l) (leaves r) x,
    contains-append (leaves r) (layer_leaves ns) x,
    contains-append (leaves l) (leaves r ++ layer_leaves ns) x,
  )

  contains-build_loop :
      (fuel : ℕ) (ns : List MerkleNode)
      → contains (layer_leaves (build_loop sha256 fuel ns)) x ≡ contains (layer_leaves ns) x
  unfolding build_loop next_layer
  contains-build_loop zero ns = refl
  contains-build_loop (suc fuel) ns = ground (
    arith,
    contains-build_loop fuel (pair_up sha256 (pad ns)),
    contains-pad x ns,
    contains-pair_up (pad ns) (omega (arith, length-pad ns)),
  )

  contains-layer_leaves-leaf :
      (hs : List Bytes) → contains (layer_leaves (map leaf hs)) x ≡ contains hs x
  unfolding layer_leaves leaves
  contains-layer_leaves-leaf [] = refl
  contains-layer_leaves-leaf (h ∷ hs) = ground (arith, contains-layer_leaves-leaf hs)

  -- The tree has the chunks that it was built from at its leaves, and no others.
  pub contains-leaves :
      (hs : List Bytes) (root : MerkleNode)
      → build sha256 hs ≡ some root
      → contains (leaves root) x ≡ contains hs x
  contains-leaves [] root e = unfold build in cc e
  contains-leaves (h ∷ hs) root e =
      let (node, one, found) = build_root sha256 h hs in
      ground (
        arith,
        contains-build_loop (length (h ∷ hs)) (map leaf (h ∷ hs)),
        contains-layer_leaves-leaf (h ∷ hs),
        contains-only x node,
      )

-- A chunk's digest: 64 digits, and not the digest of two times 64 digits, which is that of an
-- inner node.
pub record IsChunkDigest (sha256 : Bytes → Bytes) (h : Bytes) : Type 0 where
  pub width : IsDigest h
  pub not_inner : (l r : Bytes) → IsDigest l → IsDigest r → h ≢ node_hash sha256 l r

abbrev pub IsBuilt : (Bytes → Bytes) → MerkleNode → Type 0
IsBuilt sha256 (leaf h) = IsChunkDigest sha256 h
IsBuilt sha256 (parent h l r) =
    (h ≡ node_hash sha256 (hash l) (hash r)) × IsBuilt sha256 l × IsBuilt sha256 r

module _ (sha256 : Bytes → Bytes) where
  last-IsBuilt :
      (n : MerkleNode) (ns : List MerkleNode)
      → IsBuilt sha256 n
      → All (IsBuilt sha256) ns
      → IsBuilt sha256 (last n ns)
  last-IsBuilt n [] h k = h
  last-IsBuilt n (m ∷ ns) h k = last-IsBuilt m ns k.0 k.1

  pad-IsBuilt : (ns : List MerkleNode) → All (IsBuilt sha256) ns → All (IsBuilt sha256) (pad ns)
  unfolding pad
  pad-IsBuilt [] h = tt
  pad-IsBuilt (n ∷ ns) h = elim (Bool-cases (eqb (suc (length ns) % 2) 1)) [
    | inl odd ↦
        rw odd
          (All-append (IsBuilt sha256) (n ∷ ns) (last n ns ∷ []) h (last-IsBuilt n ns h.0 h.1, tt))
    | inr even ↦ rw even h
  ]

  pair_up-IsBuilt :
      (ns : List MerkleNode) → All (IsBuilt sha256) ns → All (IsBuilt sha256) (pair_up sha256 ns)
  unfolding pair_up join
  pair_up-IsBuilt [] h = tt
  pair_up-IsBuilt (n ∷ []) h = tt
  pair_up-IsBuilt (n ∷ m ∷ ns) h = ((refl, h.0, h.1.0), pair_up-IsBuilt ns h.1.1)

  build_loop-IsBuilt :
      (fuel : ℕ) (ns : List MerkleNode)
      → All (IsBuilt sha256) ns
      → All (IsBuilt sha256) (build_loop sha256 fuel ns)
  unfolding build_loop next_layer
  build_loop-IsBuilt zero ns h = h
  build_loop-IsBuilt (suc fuel) ns h = elim (Bool-cases (ltb 1 (length ns))) [
    | inl more ↦
        rw (more, build_loop)
          (build_loop-IsBuilt fuel (pair_up sha256 (pad ns))
            (pair_up-IsBuilt (pad ns) (pad-IsBuilt ns h)))
    | inr done ↦ rw (done, build_loop) h
  ]

  leaves-IsBuilt :
      (hs : List Bytes) → All (IsChunkDigest sha256) hs → All (IsBuilt sha256) (map leaf hs)
  leaves-IsBuilt [] h = tt
  leaves-IsBuilt (x ∷ hs) h = (h.0, leaves-IsBuilt hs h.1)

  pub build-IsBuilt :
      (hs : List Bytes) (root : MerkleNode)
      → All (IsChunkDigest sha256) hs
      → build sha256 hs ≡ some root
      → IsBuilt sha256 root
  build-IsBuilt [] root h e = unfold build in cc e
  build-IsBuilt (x ∷ hs) root h e =
      let (node, one, found) = build_root sha256 x hs in
      let ns = map leaf (x ∷ hs) in
      let built : All (IsBuilt sha256) (node ∷ []) =
        (rw one at (build_loop-IsBuilt (length (x ∷ hs)) ns (leaves-IsBuilt (x ∷ hs) h))) in
      subst (IsBuilt sha256) (some-injective node root (sym found ∙ e)) built.0

module _ (sha256 : Bytes → Bytes) (free : IsCollisionFree sha256) where
  hash-IsDigest : (n : MerkleNode) → IsBuilt sha256 n → IsDigest (hash n)
  unfolding hash node_hash
  hash-IsDigest (leaf h) b = b.width
  hash-IsDigest (parent h l r) b = ap length b.0 ∙ free.width (hash l ++ hash r)

  -- Nodes with one digest are one node: the whole subtrees agree.
  pub same_subtree :
      (n m : MerkleNode) → IsBuilt sha256 n → IsBuilt sha256 m → hash n ≡ hash m → n ≡ m
  unfolding hash
  same_subtree (leaf h) (leaf k) b c e = ap leaf e
  same_subtree (leaf h) (parent k l r) b c e =
      absurd (b.not_inner (hash l) (hash r) (hash-IsDigest l c.1) (hash-IsDigest r c.2) (e ∙ c.0))
  same_subtree (parent h l r) (leaf k) b c e =
      absurd
        (c.not_inner (hash l) (hash r) (hash-IsDigest l b.1) (hash-IsDigest r b.2) (sym e ∙ b.0))
  same_subtree (parent h l r) (parent k l' r') b c e =
      let (el, er) =
        node_hash_injective sha256 free (hash l) (hash r) (hash l') (hash r') (hash-IsDigest l b.1)
          (hash-IsDigest l' c.1) (sym b.0 ∙ e ∙ c.0) in
      cc (e, same_subtree l l' b.1 c.1 el, same_subtree r r' b.2 c.2 er)

  -- The digest of a chunk is a chunk's digest, unless the chunk has 128 bytes as an inner node's
  -- input does.
  pub sha256-IsChunkDigest :
      (chunk : Bytes) → length chunk ≢ 128 → IsChunkDigest sha256 (sha256 chunk)
  unfolding node_hash
  sha256-IsChunkDigest chunk other = record {
    width = free.width chunk;
    not_inner = λ l r wl wr e.
        other
          (omega (arith, ap length (free.injective chunk (l ++ r) e), length-append l r, wl, wr));
  }
