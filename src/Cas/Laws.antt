-- ===== src/Cas/Laws.antt =====
-- How each operation of the store changes what is found under a digest.
use backupos.Base.{
  ◌≡◌, ◌≢◌, refl, sym, subst, ap, ◌∙◌, Bool, true, false, ◌&&◌, Option, none, some, ◌++◌, Bytes,
  bytes_eq, bytes_beq_iff, arith, length, length-append, length-drop, Bool-cases, inl, inr, drop,
  take-append-drop, Bool-ext, ◌==◌, if◌then◌else◌,
}
use backupos.Base.Dict.{
  Dict, lookup, insert, erase, pair_eq, pair_beq_iff, lookup-insert, lookup-erase,
}
use backupos.Entropy.{FloatOps}
use backupos.Merkle.Collision.{IsDigest}
use backupos.Cas.{
  CasStore, ChunkPath, chunk_path, tmp_path, tmp_suffix, WriteOutcome, written, write_fails,
  rename_fails, write_atomically, exists, delete, is_ok, store, store_new, payload_of, CasEnv,
}

-- The path tells the digest.
pub path_injective : (h j : Bytes) → chunk_path h ≡ chunk_path j → h ≡ j
path_injective h j e =
    sym (take-append-drop 2 h) ∙ ap (λ (p : ChunkPath). p.0 ++ p.1) e ∙ take-append-drop 2 j

pub path_beq : (h j : Bytes) → (chunk_path h == chunk_path j) ≡ (h == j)
path_beq h j =
    Bool-ext _ _ (λ e. (bytes_beq_iff h j).1 (path_injective h j ((pair_beq_iff _ _).0 e)))
      (λ e. (pair_beq_iff _ _).1 (ap chunk_path ((bytes_beq_iff h j).0 e)))

tmp_len :
    (h j : Bytes) → IsDigest h → IsDigest j → length (drop 2 h ++ tmp_suffix) ≢ length (drop 2 j)
tmp_len h j p q e =
    omega (arith, length-append (drop 2 h) tmp_suffix, length-drop 2 h, length-drop 2 j)

-- The temporary file of one digest is not the chunk of another.
pub tmp_ne_chunk :
    (h j : Bytes) → IsDigest h → IsDigest j → (tmp_path (chunk_path h) == chunk_path j) ≡ false
tmp_ne_chunk h j p q = elim (Bool-cases (tmp_path (chunk_path h) == chunk_path j)) [
  | inl e ↦ absurd (tmp_len h j p q (ap (λ (r : ChunkPath). length r.1) ((pair_beq_iff _ _).0 e)))
  | inr e ↦ e
]

module _ (path tmp other : ChunkPath) (payload : Bytes) (apart : (tmp == other) ≡ false) where
  lookup-erase_tmp :
      (files : Dict ChunkPath Bytes) → lookup other (erase tmp files) ≡ lookup other files
  lookup-erase_tmp files = lookup-erase tmp other files ∙ rw apart refl

  pub lookup-insert_tmp :
      (files : Dict ChunkPath Bytes)
      → lookup other (erase tmp (insert tmp payload files)) ≡ lookup other files
  lookup-insert_tmp files =
      lookup-erase_tmp (insert tmp payload files)
      ∙ lookup-insert tmp other payload files
      ∙ rw apart refl

  lookup-insert_path :
      (files : Dict ChunkPath Bytes)
      → lookup other (insert path payload (erase tmp (insert tmp payload files)))
        ≡ (if path == other then some payload else lookup other files)
  lookup-insert_path files =
      lookup-insert path other payload _
      ∙ ap (λ o. if path == other then some payload else o) (lookup-insert_tmp files)

-- What is at a chunk's path after the writes.
pub lookup-write_atomically :
    (io : WriteOutcome) (h j payload : Bytes) (files : Dict ChunkPath Bytes)
    → IsDigest h
    → IsDigest j
    → let (well, after) = write_atomically io (chunk_path h) payload files in
      lookup (chunk_path j) after
      ≡ (if well && h == j then some payload else lookup (chunk_path j) files)
unfolding write_atomically
lookup-write_atomically written h j payload files p q =
    lookup-insert_path _ _ _ payload (tmp_ne_chunk h j p q) files
    ∙ ap (λ b. if b then some payload else lookup (chunk_path j) files) (path_beq h j)
lookup-write_atomically write_fails h j payload files p q =
    lookup-erase_tmp (chunk_path h) _ _ payload (tmp_ne_chunk h j p q) files
lookup-write_atomically rename_fails h j payload files p q =
    lookup-insert_tmp (chunk_path h) _ _ payload (tmp_ne_chunk h j p q) files

none_absent : (o : Option Bytes) → (elim o [ none ↦ false | some _ ↦ true ]) ≡ false → o ≡ none
none_absent none e = refl
none_absent (some x) e = ground arith

-- A digest that does not exist has nothing at its path.
pub not_exists :
    (h : Bytes) (s : CasStore) → exists h s ≡ false → lookup (chunk_path h) s.files ≡ none
unfolding exists
not_exists h s e = none_absent _ e

lookup_absent :
    (h j : Bytes) (files : Dict ChunkPath Bytes)
    → lookup (chunk_path h) files ≡ none
    → lookup (chunk_path j) files ≡ (if h == j then none else lookup (chunk_path j) files)
lookup_absent h j files e = elim (Bool-cases (h == j)) [
  | inl same ↦
      rw same (subst (λ k. lookup (chunk_path k) files ≡ none) ((bytes_beq_iff h j).0 same) e)
  | inr other ↦ rw other refl
]

-- `delete` reports whether the chunk was there, and takes away that chunk alone.
pub delete_exact :
    (h j : Bytes) (s : CasStore)
    → ((delete h s).0 ≡ exists h s)
      × (lookup (chunk_path j) (delete h s).1.files
          ≡ (if h == j then none else lookup (chunk_path j) s.files))
unfolding delete
delete_exact h j s = elim (Bool-cases (exists h s)) [
  | inl e ↦ rw e (
    refl,
    lookup-erase (chunk_path h) (chunk_path j) s.files
        ∙ ap (λ b. if b then none else lookup (chunk_path j) s.files) (path_beq h j),
  )
  | inr e ↦ rw e (refl, lookup_absent h j s.files (not_exists h s e))
]

module _ (F : FloatOps) (env : CasEnv F) where
  open env use {sha256}

  -- What is found at the path of a digest after `store`.
  pub lookup-store_new :
      (io : WriteOutcome) (h j payload : Bytes) (s : CasStore)
      → IsDigest h
      → IsDigest j
      → let (r, after) = store_new F env io (chunk_path h) h payload s in
        lookup (chunk_path j) after.files
        ≡ (if is_ok r && h == j then some payload else lookup (chunk_path j) s.files)
  unfolding store_new
  lookup-store_new io h j payload s p q =
      let (well, after) = write_atomically io (chunk_path h) payload s.files in
      let found = λ (b : Bool).
        lookup (chunk_path j) after
        ≡ (if b && h == j then some payload else lookup (chunk_path j) s.files) in
      elim (Bool-cases (write_atomically io (chunk_path h) payload s.files).0) [
        | inl e ↦ rw e (subst found e (lookup-write_atomically io h j payload s.files p q))
        | inr e ↦ rw e (subst found e (lookup-write_atomically io h j payload s.files p q))
      ]

  pub store_hit :
      (io : WriteOutcome) (bytes old : Bytes) (entropy : Option F.Float) (s : CasStore)
      → lookup (chunk_path (sha256 bytes)) s.files ≡ some old
      → (store F env io bytes entropy s).1 ≡ s
  unfolding store
  store_hit io bytes old entropy s e = rw (e, store) refl

  pub store_miss :
      (io : WriteOutcome) (bytes : Bytes) (entropy : Option F.Float) (s : CasStore)
      → lookup (chunk_path (sha256 bytes)) s.files ≡ none
      → (store F env io bytes entropy s).1
        ≡ (store_new F env io
            (chunk_path (sha256 bytes))
            (sha256 bytes)
            (payload_of F env bytes entropy)
            s).1
  unfolding store
  store_miss io bytes entropy s e = rw (e, store) refl
