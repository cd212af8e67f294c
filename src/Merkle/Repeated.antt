-- ===== src/Merkle/Repeated.antt =====
-- A last node that is duplicated cannot be told from a last chunk that is there twice.
use backupos.Base.{
  ℕ, zero, suc, ◌+◌, ◌%◌, ◌≤◌, ◌<◌, ◌≡◌, refl, sym, ap, ◌∙◌, true, List, [], ◌∷◌, ◌++◌, map, Bytes,
  bytes_beq_iff, arith, length, length-map, get_elem?,
}
use backupos.Merkle.{MerkleNode, leaf, last, pad, next_layer, build_loop, build, root_hash, verify}
use backupos.Merkle.Build.{length-pad, length-next_layer, build_loop_fuel}
use backupos.Merkle.Levels.{pad-map}

pad_even {ℓ} : {A : Type ℓ} (xs : List A) → length xs % 2 ≡ 0 → pad xs ≡ xs
unfolding pad
pad_even [] e = refl
pad_even (x ∷ xs) e = ground arith

pad_odd {ℓ} :
    {A : Type ℓ} (x : A) (xs : List A)
    → length (x ∷ xs) % 2 ≡ 1
    → pad (x ∷ xs) ≡ (x ∷ xs) ++ last x xs ∷ []
unfolding pad
pad_odd x xs e = ground arith

module _ (sha256 : Bytes → Bytes) where
  build_loop_step :
      (f : ℕ) (ns : List MerkleNode)
      → 1 < length ns
      → length ns ≤ f
      → build_loop sha256 f ns ≡ build_loop sha256 f (next_layer sha256 ns)
  build_loop_step zero ns more h = absurd (omega arith)
  build_loop_step (suc f) ns more h =
      unfold build_loop in ground (arith, length-next_layer sha256 ns, fuel)
    where
      fuel :
          build_loop sha256 f (next_layer sha256 ns)
          ≡ build_loop sha256 (suc f) (next_layer sha256 ns)
      fuel =
          build_loop_fuel sha256 f (suc f) (next_layer sha256 ns)
            (omega (arith, length-next_layer sha256 ns))
            (omega (arith, length-next_layer sha256 ns))

  next_layer-pad : (ns : List MerkleNode) → next_layer sha256 (pad ns) ≡ next_layer sha256 ns
  unfolding next_layer
  next_layer-pad ns = rw (pad_even (pad ns) (omega (arith, length-pad ns)))

  build_loop-pad :
      (f : ℕ) (ns : List MerkleNode)
      → 1 < length ns
      → length ns + 1 ≤ f
      → build_loop sha256 f (pad ns) ≡ build_loop sha256 f ns
  build_loop-pad f ns more h =
      build_loop_step f (pad ns) (omega (arith, length-pad ns)) (omega (arith, length-pad ns))
      ∙ ap (build_loop sha256 f) (next_layer-pad ns)
      ∙ sym (build_loop_step f ns more (omega arith))

  build_lem :
      (hs : List Bytes)
      → build sha256 hs ≡ get_elem? (build_loop sha256 (length hs) (map leaf hs)) 0
  unfolding build build_loop
  build_lem [] = refl
  build_lem (h ∷ hs) = refl

  build-pad : (hs : List Bytes) → 1 < length hs → build sha256 (pad hs) ≡ build sha256 hs
  build-pad hs more =
      build_lem (pad hs)
      ∙ ap (λ ns. get_elem? ns 0)
          (ap (build_loop sha256 (length (pad hs))) (sym (pad-map leaf hs))
            ∙ build_loop_fuel sha256 (length (pad hs)) (length hs + 2) (pad (map leaf hs))
                (omega (arith, length-pad hs, length-pad (map leaf hs), length-map leaf hs))
                (omega (arith, length-pad (map leaf hs), length-map leaf hs))
            ∙ build_loop-pad (length hs + 2) (map leaf hs) (omega (arith, length-map leaf hs))
                (omega (arith, length-map leaf hs))
            ∙ build_loop_fuel sha256 (length hs + 2) (length hs) (map leaf hs)
                (omega (arith, length-map leaf hs)) (omega (arith, length-map leaf hs)))
      ∙ sym (build_lem hs)

  root_hash-pad :
      (hs : List Bytes) → 1 < length hs → root_hash sha256 (pad hs) ≡ root_hash sha256 hs
  unfolding root_hash
  root_hash-pad hs more = rw (build-pad hs more, root_hash)

  -- Where the number of chunks is odd and more than one, the list with its last chunk repeated
  -- verifies against the root of the list without.
  pub verify_repeated :
      (x : Bytes) (xs : List Bytes)
      → 1 < length (x ∷ xs)
      → length (x ∷ xs) % 2 ≡ 1
      → verify sha256 ((x ∷ xs) ++ last x xs ∷ []) (root_hash sha256 (x ∷ xs)) ≡ true
  unfolding verify
  verify_repeated x xs more odd =
      (bytes_beq_iff _ _).1
        (ap (root_hash sha256) (sym (pad_odd x xs odd)) ∙ root_hash-pad (x ∷ xs) more)
