-- ===== src/Merkle/Tests.antt =====
-- The tree on small lists of digests, and the theorems where their hypotheses hold.
use backupos.Base.{
  ℕ, ◌≡◌, ◌↔◌, refl, true, some, [], ◌∷◌, List, Bytes, arith, contains, bytes_beq, bytes_eq,
}
use backupos.Merkle.{
  MerkleNode, leaf, parent, hash, pad, node_hash, join, pair_up, next_layer, build_loop, build,
  root_hash, verify, diff, all_node_hashes, all_node_hashes_loop, push_children, rounds,
  collect_new_chunks,
}
use backupos.Merkle.Build.{build_root}
use backupos.Merkle.Built.{IsChunkDigest, sha256-IsChunkDigest}
use backupos.Merkle.Repeated.{verify_repeated}
use backupos.Merkle.Verify.{verify_exact}
use backupos.Merkle.Diff.{contains-diff}
use backupos.Merkle.Sample.{sample_sha256, sample-IsCollisionFree, chunk_digest}

abbrev a : Bytes
a = chunk_digest 1

abbrev b : Bytes
b = chunk_digest 2

abbrev c : Bytes
c = chunk_digest 3

abbrev short_hash : Bytes → Bytes
short_hash x = 9 ∷ x

build_three :
    build short_hash ((1 ∷ []) ∷ (2 ∷ []) ∷ (3 ∷ []) ∷ [])
    ≡ some (
        parent
          (9 ∷ 9 ∷ 1 ∷ 2 ∷ 9 ∷ 3 ∷ 3 ∷ [])
          (parent (9 ∷ 1 ∷ 2 ∷ []) (leaf (1 ∷ [])) (leaf (2 ∷ [])))
          (parent (9 ∷ 3 ∷ 3 ∷ []) (leaf (3 ∷ [])) (leaf (3 ∷ []))))
unfolding build build_loop next_layer pad pair_up join node_hash hash
build_three = refl

diff_three :
    diff short_hash ((1 ∷ []) ∷ (2 ∷ []) ∷ (3 ∷ []) ∷ []) ((1 ∷ []) ∷ (2 ∷ []) ∷ [])
    ≡ (3 ∷ []) ∷ (3 ∷ []) ∷ []
unfolding diff build build_loop next_layer pad pair_up join node_hash hash all_node_hashes
    all_node_hashes_loop push_children rounds collect_new_chunks bytes_beq
diff_three = refl

build_root_example :
    (root : MerkleNode) × (build_loop sample_sha256 3 (leaf a ∷ leaf b ∷ leaf c ∷ []) ≡ root ∷ [])
    × (build sample_sha256 (a ∷ b ∷ c ∷ []) ≡ some root)
build_root_example = build_root sample_sha256 a (b ∷ c ∷ [])

verify_exact_example :
    (verify sample_sha256 (a ∷ b ∷ []) (root_hash sample_sha256 (a ∷ c ∷ [])) ≡ true)
    ↔ (◌≡◌ {A = List Bytes} (a ∷ b ∷ []) (a ∷ c ∷ []))
verify_exact_example =
    verify_exact sample_sha256 (a ∷ b ∷ []) (a ∷ c ∷ []) sample-IsCollisionFree (refl, (refl, tt))
      (refl, (refl, tt)) refl

verify_repeated_example :
    verify sample_sha256 (a ∷ b ∷ c ∷ c ∷ []) (root_hash sample_sha256 (a ∷ b ∷ c ∷ [])) ≡ true
verify_repeated_example = verify_repeated sample_sha256 a (b ∷ c ∷ []) (omega arith) refl

-- The digest of a chunk of one byte.
abbrev digest_of : ℕ → Bytes
digest_of n = sample_sha256 (n ∷ [])

digest_of-IsChunkDigest : (n : ℕ) → IsChunkDigest sample_sha256 (digest_of n)
digest_of-IsChunkDigest n =
    sha256-IsChunkDigest sample_sha256 sample-IsCollisionFree (n ∷ []) (λ e. omega arith)

contains-diff_example :
    contains
      (diff sample_sha256 (digest_of 1 ∷ digest_of 2 ∷ []) (digest_of 2 ∷ digest_of 3 ∷ []))
      (digest_of 1)
    ≡ true
unfolding bytes_beq sample_sha256
contains-diff_example =
    contains-diff sample_sha256 sample-IsCollisionFree (digest_of 1 ∷ digest_of 2 ∷ [])
      (digest_of 2 ∷ digest_of 3 ∷ []) (digest_of-IsChunkDigest 1, (digest_of-IsChunkDigest 2, tt))
      (digest_of-IsChunkDigest 2, (digest_of-IsChunkDigest 3, tt)) (digest_of 1)
