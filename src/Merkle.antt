-- ===== src/Merkle.antt =====
-- app/core/merkle.py: the Merkle tree over the digests of a snapshot's chunks.
-- `sha256` stands for `hashlib.sha256(·).hexdigest()`. A `MerkleNode` is a leaf, with
-- `hash == chunk_hash`, or a parent, with both children: no other is ever built.
pub mod Build
mod Levels
pub mod Collision
pub mod Built
pub mod Diff
mod Repeated
pub mod Verify
pub mod Sample
mod Tests
use backupos.Base.{
  ℕ, zero, suc, ◌+◌, ◌%◌, Bool, true, false, Option, none, some, List, [], ◌∷◌, ◌++◌, map, Bytes,
  ltb, eqb, bytes_eq, contains, ◌==◌, length, get_elem?, if◌then◌else◌,
}

pub data MerkleNode : Type 0 where
  leaf : Bytes → MerkleNode
  parent : Bytes → MerkleNode → MerkleNode → MerkleNode

unfoldable pub hash : MerkleNode → Bytes
hash (leaf h) = h
hash (parent h l r) = h

-- `nodes[-1]`, on the list `x ∷ xs`.
abbrev pub last {ℓ} : {A : Type ℓ} → A → List A → A
last x [] = x
last x (y ∷ ys) = last y ys

-- `if len(nodes) % 2 == 1: nodes.append(nodes[-1])`
unfoldable pub pad {ℓ} : {A : Type ℓ} → List A → List A
pad [] = []
pad (x ∷ xs) = if eqb (length (x ∷ xs) % 2) 1 then (x ∷ xs) ++ last x xs ∷ [] else x ∷ xs

-- `_all_node_hashes`: the stack holds `node.left` and `node.right`, which are `None` at a leaf.
-- Its end, where `append` and `pop` work, is the head here.
unfoldable pub push_children : MerkleNode → List (Option MerkleNode) → List (Option MerkleNode)
push_children (leaf h) stack = none ∷ none ∷ stack
push_children (parent h l r) stack = some r ∷ some l ∷ stack

unfoldable pub all_node_hashes_loop : ℕ → List (Option MerkleNode) → List Bytes → List Bytes
all_node_hashes_loop zero stack hashes = hashes
all_node_hashes_loop (suc fuel) [] hashes = hashes
all_node_hashes_loop (suc fuel) (none ∷ stack) hashes = all_node_hashes_loop fuel stack hashes
all_node_hashes_loop (suc fuel) (some node ∷ stack) hashes =
    all_node_hashes_loop fuel (push_children node stack) (hash node ∷ hashes)

-- The rounds that a stack entry takes: one, and those of the two entries that it pushes.
unfoldable pub rounds : MerkleNode → ℕ
rounds (leaf h) = 3
rounds (parent h l r) = suc (rounds l + rounds r)

unfoldable pub all_node_hashes : Option MerkleNode → List Bytes
all_node_hashes none = all_node_hashes_loop 2 (none ∷ []) []
all_node_hashes (some root) = all_node_hashes_loop (rounds root + 1) (some root ∷ []) []

unfoldable pub collect_new_chunks : MerkleNode → List Bytes → List Bytes → List Bytes
collect_new_chunks (leaf h) other_hashes result =
    if contains other_hashes h then result else result ++ h ∷ []
collect_new_chunks (parent h l r) other_hashes result = elim (contains other_hashes h) [
  | true ↦ result
  | false ↦ collect_new_chunks r other_hashes (collect_new_chunks l other_hashes result)
]

module _ (sha256 : Bytes → Bytes) where
  unfoldable pub node_hash : Bytes → Bytes → Bytes
  node_hash left_hash right_hash = sha256 (left_hash ++ right_hash)

  unfoldable pub join : MerkleNode → MerkleNode → MerkleNode
  join left right = parent (node_hash (hash left) (hash right)) left right

  -- The `for` loop over the pairs of a layer of even length.
  unfoldable pub pair_up : List MerkleNode → List MerkleNode
  pair_up [] = []
  pair_up (left ∷ []) = []
  pair_up (left ∷ right ∷ nodes) = join left right ∷ pair_up nodes

  unfoldable pub next_layer : List MerkleNode → List MerkleNode
  next_layer nodes = pair_up (pad nodes)

  -- `while len(nodes) > 1`
  unfoldable pub build_loop : ℕ → List MerkleNode → List MerkleNode
  build_loop zero nodes = nodes
  build_loop (suc fuel) nodes = elim (ltb 1 (length nodes)) [
    | true ↦ build_loop fuel (next_layer nodes)
    | false ↦ nodes
  ]

  unfoldable pub build : List Bytes → Option MerkleNode
  build [] = none
  build (h ∷ hs) = get_elem? (build_loop (length (h ∷ hs)) (map leaf (h ∷ hs))) 0

  -- `hashlib.sha256(b"").hexdigest()` where there is no root.
  unfoldable pub root_hash : List Bytes → Bytes
  root_hash chunk_hashes = elim (build chunk_hashes) [ none ↦ sha256 [] | some root ↦ hash root ]

  unfoldable pub verify : List Bytes → Bytes → Bool
  verify chunk_hashes expected_root = root_hash chunk_hashes == expected_root

  -- `MerkleTree(self).diff(MerkleTree(other))`
  unfoldable pub diff : List Bytes → List Bytes → List Bytes
  diff self other =
      let other_hashes = all_node_hashes (build other) in
      elim (build self) [ none ↦ [] | some root ↦ collect_new_chunks root other_hashes [] ]
