-- ===== src/Merkle/Verify.antt =====
-- What `MerkleTree.verify` says of a list of chunks.
use backupos.Base.{◌≡◌, ap, ◌↔◌, true, List, Bytes, bytes_beq_iff, length, All}
use backupos.Merkle.{root_hash, verify}
use backupos.Merkle.Collision.{IsDigest, IsCollisionFree, root_hash_injective}

module _ (sha256 : Bytes → Bytes) where
  -- With a digest of 64 digits that has no collisions, and as many digests as the stored root was
  -- computed from, `verify` accepts the list of digests if it is the list of the root, and only
  -- then: no chunk can be changed, dropped for another, or moved.
  pub verify_exact :
      (xs ys : List Bytes)
      → IsCollisionFree sha256
      → All IsDigest xs
      → All IsDigest ys
      → length xs ≡ length ys
      → (verify sha256 xs (root_hash sha256 ys) ≡ true) ↔ (xs ≡ ys)
  unfolding verify
  verify_exact xs ys free h k e = (
    λ v. root_hash_injective sha256 free xs ys h k e ((bytes_beq_iff _ _).0 v),
    λ same. (bytes_beq_iff _ _).1 (ap (root_hash sha256) same),
  )
