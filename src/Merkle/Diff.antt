-- ===== src/Merkle/Diff.antt =====
-- `MerkleTree.diff` skips every subtree whose digest the other tree has, and still gives the
-- difference of the two sets of chunks.
use mathlib.Core.Bool.{not}
use backupos.Base.{
  ℕ, zero, suc, ◌+◌, ◌≤◌, ◌≡◌, refl, sym, ap, ◌∙◌, Bool, true, false, ◌&&◌, ◌||◌, Option, none,
  some, List, [], ◌∷◌, ◌++◌, Bytes, bytes_eq, bytes_beq, bytes_beq_iff, beq_refl, arith, Bool-cases,
  Bool-ext, if◌then◌else◌, contains_cases, contains_left, contains_right, inl, inr, contains,
  contains-append, All,
}
use backupos.Merkle.{
  MerkleNode, leaf, parent, hash, push_children, all_node_hashes_loop, rounds, all_node_hashes,
  collect_new_chunks, build, diff,
}
use backupos.Merkle.Build.{build_root}
use backupos.Merkle.Collision.{IsCollisionFree}
use backupos.Merkle.Built.{
  leaves, contains-leaves, IsChunkDigest, IsBuilt, build-IsBuilt, same_subtree,
}

-- The digests of all nodes of a subtree.
subtree_hashes : MerkleNode → List Bytes
subtree_hashes (leaf h) = h ∷ []
subtree_hashes (parent h l r) = h ∷ (subtree_hashes l ++ subtree_hashes r)

stack_hashes : List (Option MerkleNode) → List Bytes
stack_hashes [] = []
stack_hashes (none ∷ stack) = stack_hashes stack
stack_hashes (some n ∷ stack) = subtree_hashes n ++ stack_hashes stack

stack_rounds : List (Option MerkleNode) → ℕ
stack_rounds [] = 0
stack_rounds (none ∷ stack) = suc (stack_rounds stack)
stack_rounds (some n ∷ stack) = rounds n + stack_rounds stack

module _ (x : Bytes) where
  contains-all_node_hashes_loop :
      (fuel : ℕ) (stack : List (Option MerkleNode)) (hashes : List Bytes)
      → stack_rounds stack ≤ fuel
      → contains (all_node_hashes_loop fuel stack hashes) x
        ≡ (contains hashes x || contains (stack_hashes stack) x)
  unfolding all_node_hashes_loop push_children stack_hashes subtree_hashes stack_rounds rounds hash
  contains-all_node_hashes_loop zero [] hashes h = ground arith
  contains-all_node_hashes_loop zero (none ∷ stack) hashes h = absurd (omega arith)
  contains-all_node_hashes_loop zero (some (leaf k) ∷ stack) hashes h = absurd (omega arith)
  contains-all_node_hashes_loop zero (some (parent k l r) ∷ stack) hashes h = absurd (omega arith)
  contains-all_node_hashes_loop (suc fuel) [] hashes h = ground arith
  contains-all_node_hashes_loop (suc fuel) (none ∷ stack) hashes h =
      contains-all_node_hashes_loop fuel stack hashes (omega arith)
  contains-all_node_hashes_loop (suc fuel) (some (leaf k) ∷ stack) hashes h =
      ground
        (arith, contains-all_node_hashes_loop fuel (none ∷ none ∷ stack) (k ∷ hashes) (omega arith))
  contains-all_node_hashes_loop (suc fuel) (some (parent k l r) ∷ stack) hashes h = ground (
    arith,
    contains-all_node_hashes_loop fuel (some r ∷ some l ∷ stack) (k ∷ hashes) (omega arith),
    contains-append (subtree_hashes r) (subtree_hashes l ++ stack_hashes stack) x,
    contains-append (subtree_hashes l) (stack_hashes stack) x,
    contains-append (subtree_hashes l ++ subtree_hashes r) (stack_hashes stack) x,
    contains-append (subtree_hashes l) (subtree_hashes r) x,
  )

  -- The fuel suffices: the walk over the stack has met every node.
  contains-all_node_hashes :
      (root : MerkleNode)
      → contains (all_node_hashes (some root)) x ≡ contains (subtree_hashes root) x
  unfolding all_node_hashes stack_hashes stack_rounds
  contains-all_node_hashes root = ground (
    arith,
    contains-all_node_hashes_loop (rounds root + 1) (some root ∷ []) [] (omega arith),
    contains-append (subtree_hashes root) [] x,
  )

  leaf_among :
      (n : MerkleNode) → contains (leaves n) x ≡ true → contains (subtree_hashes n) x ≡ true
  unfolding subtree_hashes leaves
  leaf_among (leaf h) e = e
  leaf_among (parent h l r) e = ground (
    arith,
    leaf_among l,
    leaf_among r,
    contains-append (leaves l) (leaves r) x,
    contains-append (subtree_hashes l) (subtree_hashes r) x,
  )

or_first : (a b : Bool) → a ≡ true → (a || b) ≡ true
or_first a b h = ground arith

or_right : {a b : Bool} → a ≡ false → (a || b) ≡ true → b ≡ true
or_right h e = ground arith

or_absorb : (r a q : Bool) → (a ≡ true → q ≡ true) → r ≡ (r || (a && not q))
or_absorb r a q h = ground arith

or_split : (r a b q : Bool) → (r || a && not q || b && not q) ≡ (r || (a || b) && not q)
or_split r a b q = ground arith

collect_leaf :
    (x h : Bytes) (other result : List Bytes)
    → contains (if contains other h then result else result ++ h ∷ []) x
      ≡ (contains result x || (contains (h ∷ []) x && not (contains other x)))
collect_leaf x h other result = ground (arith, bytes_beq_iff x h, contains-append result (h ∷ []) x)

module _ (sha256 : Bytes → Bytes) (free : IsCollisionFree sha256) (x : Bytes) where
  same_leaves :
      (n m : MerkleNode)
      → IsBuilt sha256 n
      → IsBuilt sha256 m
      → hash n ≡ hash m
      → contains (leaves n) x ≡ contains (leaves m) x
  same_leaves n m b c e = ap (λ t. contains (leaves t) x) (same_subtree sha256 free n m b c e)

  -- A digest that is met in a tree brings its whole subtree with it.
  shared_subtree :
      (n m : MerkleNode)
      → IsBuilt sha256 n
      → IsBuilt sha256 m
      → contains (subtree_hashes m) (hash n) ≡ true
      → contains (leaves n) x ≡ true
      → contains (leaves m) x ≡ true
  unfolding subtree_hashes leaves hash
  shared_subtree n (leaf k) b c e h =
      ground (arith, bytes_beq_iff (hash n) k, same_leaves n (leaf k) b c)
  shared_subtree n (parent k l r) b c e h = elim (Bool-cases (bytes_beq (hash n) k)) [
    | inl here ↦ sym (same_leaves n (parent k l r) b c ((bytes_beq_iff (hash n) k).0 here)) ∙ h
    | inr below ↦
        elim (contains_cases (subtree_hashes l) (subtree_hashes r) (hash n) (or_right below e)) [
          | inl on_left ↦ contains_left (leaves l) (leaves r) x (shared_subtree n l b c.1 on_left h)
          | inr on_right ↦
              contains_right (leaves l) (leaves r) x (shared_subtree n r b c.2 on_right h)
        ]
  ]

module _ (sha256 : Bytes → Bytes) (free : IsCollisionFree sha256) where
  -- At a leaf the walk's test is whether the other tree has that chunk.
  leaf_shared :
      (m : MerkleNode) (h : Bytes)
      → IsBuilt sha256 (leaf h)
      → IsBuilt sha256 m
      → contains (subtree_hashes m) h ≡ contains (leaves m) h
  unfolding leaves hash
  leaf_shared m h b c =
      Bool-ext _ _ (λ e. shared_subtree sha256 free h (leaf h) m b c e (or_first _ _ (beq_refl h)))
        (leaf_among h m)

module _ (sha256 : Bytes → Bytes) (free : IsCollisionFree sha256) (x : Bytes) where
  contains-collect_new_chunks :
      (n m : MerkleNode) (other_hashes result : List Bytes)
      → ((y : Bytes) → contains other_hashes y ≡ contains (subtree_hashes m) y)
      → IsBuilt sha256 n
      → IsBuilt sha256 m
      → contains (collect_new_chunks n other_hashes result) x
        ≡ (contains result x || (contains (leaves n) x && not (contains (leaves m) x)))
  unfolding collect_new_chunks hash leaves
  contains-collect_new_chunks (leaf h) m other_hashes result same b c =
      rw (same h ∙ leaf_shared sha256 free m h b c) (collect_leaf x h (leaves m) result)
  contains-collect_new_chunks (parent h l r) m other_hashes result same b c =
      elim (Bool-cases (contains other_hashes h)) [
        | inl skip ↦
            rw (skip, collect_new_chunks)
              (or_absorb (contains result x) _ _
                (shared_subtree sha256 free x (parent h l r) m b c (sym (same h) ∙ skip)))
        | inr walk ↦
            rw
              (
                walk,
                collect_new_chunks,
                contains-collect_new_chunks r m other_hashes
                    (collect_new_chunks l other_hashes result) same b.2 c,
                contains-collect_new_chunks l m other_hashes result same b.1 c,
                contains-append (leaves l) (leaves r) x,
              )
              (or_split (contains result x) (contains (leaves l) x) (contains (leaves r) x) _)
      ]

-- Against no tree at all, every chunk is new.
collect_all :
    (x : Bytes) (n : MerkleNode) (result : List Bytes)
    → contains (collect_new_chunks n [] result) x ≡ (contains result x || contains (leaves n) x)
unfolding collect_new_chunks leaves
collect_all x (leaf h) result = contains-append result (h ∷ []) x
collect_all x (parent h l r) result = ground (
  arith,
  collect_all x r (collect_new_chunks l [] result),
  collect_all x l result,
  contains-append (leaves l) (leaves r) x,
)

all_node_hashes-none : all_node_hashes none ≡ []
unfolding all_node_hashes all_node_hashes_loop
all_node_hashes-none = refl

module _ (sha256 : Bytes → Bytes) (free : IsCollisionFree sha256) where
  build-nil : build sha256 [] ≡ none
  unfolding build
  build-nil = refl

  -- With a digest of 64 digits without collisions, and chunk digests of 64 digits that are not
  -- the digest of two times 64 digits, `diff` gives exactly the chunks of the tree that the other
  -- tree lacks.
  pub contains-diff :
      (self other : List Bytes)
      → All (IsChunkDigest sha256) self
      → All (IsChunkDigest sha256) other
      → (x : Bytes)
      → contains (diff sha256 self other) x ≡ (contains self x && not (contains other x))
  unfolding diff
  contains-diff [] other h k x = unfold build in refl
  contains-diff (a ∷ self) [] h k x =
      let (n, _, en) = build_root sha256 a self in
      rw (en, diff, build-nil, all_node_hashes-none)
        (ground (arith, contains-leaves sha256 x (a ∷ self) n en, collect_all x n []))
  contains-diff (a ∷ self) (b ∷ other) h k x =
      let (n, _, en) = build_root sha256 a self in
      let (m, _, em) = build_root sha256 b other in
      rw (en, em, diff)
        (ground (
          arith,
          contains-leaves sha256 x (a ∷ self) n en,
          contains-leaves sha256 x (b ∷ other) m em,
          contains-collect_new_chunks sha256 free x n m (all_node_hashes (some m)) []
              (λ y. contains-all_node_hashes y m) (build-IsBuilt sha256 (a ∷ self) n h en)
              (build-IsBuilt sha256 (b ∷ other) m k em),
        ))
