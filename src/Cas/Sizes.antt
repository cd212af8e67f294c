-- ===== src/Cas/Sizes.antt =====
-- The sizes that the store reports: `stats` and `total_size` agree, and `store` adds what it says.
use backupos.Base.{
  ℕ, zero, suc, ◌+◌, ◌-◌, ◌≡◌, ◌≢◌, ◌≤◌, ◌⊎◌, inl, inr, refl, subst, ◌∙◌, true, false, Option, none,
  List, [], ◌∷◌, ◌++◌, Bytes, bytes_eq, bytes_beq_iff, beq_refl, arith, length, length-append, drop,
  ◌==◌, if◌then◌else◌, Bool-cases, Option-cases, All,
}
use backupos.Base.Dict.{Dict, lookup, insert, erase, pair_eq, pair_beq_iff}
use backupos.Entropy.{FloatOps}
use backupos.Merkle.Collision.{IsDigest}
use backupos.Cas.{
  CasStore, CasEnv, ChunkPath, Result, ok, err, WriteOutcome, written, write_fails, rename_fails,
  write_atomically, Stored, chunk_path, tmp_path, tmp_suffix, is_tmp, total_size_files, total_size,
  CasStats, stats_loop, stats, store, store_new,
}
use backupos.Cas.Laws.{tmp_ne_chunk, lookup-insert_tmp}

abbrev pub IsHexDigit : ℕ → Type 0
IsHexDigit c = ((48 ≤ c) × (c ≤ 57)) ⊎ ((97 ≤ c) × (c ≤ 102))

All-drop {ℓ κ} : {A : Type ℓ} (P : A → Type κ) (n : ℕ) (xs : List A) → All P xs → All P (drop n xs)
All-drop P zero xs h = h
All-drop P (suc n) [] h = tt
All-drop P (suc n) (x ∷ xs) h = All-drop P n xs h.1

not_hex : IsHexDigit 46 → ⊥
not_hex h = omega arith

hex_suffix : (xs : Bytes) → All IsHexDigit xs → xs ≢ tmp_suffix
hex_suffix xs h e = not_hex (subst (All IsHexDigit) e h).0

-- A name of hex digits is not that of a temporary file.
hex-is_tmp : (name : Bytes) → All IsHexDigit name → is_tmp name ≡ false
unfolding is_tmp
hex-is_tmp name h = elim (Bool-cases (drop (length name - 4) name == tmp_suffix)) [
  | inl e ↦ absurd (
      hex_suffix _ (All-drop IsHexDigit (length name - 4) name h)
        ((bytes_beq_iff _ tmp_suffix).0 e))
  | inr e ↦ e
]

stats_loop-total :
    (files : Dict ChunkPath Bytes) (st : CasStats)
    → (stats_loop files st).compressed_bytes ≡ st.compressed_bytes + total_size_files files
unfolding stats_loop total_size_files
stats_loop-total [] st = omega arith
stats_loop-total (((shard, name), payload) ∷ files) st = elim (Bool-cases (is_tmp name)) [
  | inl e ↦ rw (e, stats_loop) (omega (arith, stats_loop-total files st))
  | inr e ↦
      rw (e, stats_loop)
        (omega (
          arith,
          stats_loop-total files (record {
            chunk_count = st.chunk_count + 1;
            compressed_bytes = st.compressed_bytes + length payload;
          }),
        ))
]

-- `stats` counts the bytes that `total_size` counts.
pub stats-total_size : (s : CasStore) → (stats s).compressed_bytes ≡ total_size s
unfolding stats total_size
stats-total_size s =
    omega (arith, stats_loop-total s.files (record { chunk_count = 0; compressed_bytes = 0 }))

abbrev size_at : ChunkPath → Bytes → ℕ
size_at path payload = if is_tmp path.1 then 0 else length payload

size-insert_new :
    (path : ChunkPath) (payload : Bytes) (files : Dict ChunkPath Bytes)
    → lookup path files ≡ none
    → total_size_files (insert path payload files) ≡ size_at path payload + total_size_files files
unfolding total_size_files lookup insert
size-insert_new path payload [] e = omega arith
size-insert_new path payload ((p, old) ∷ files) e =
    ground (arith, size-insert_new path payload files)

-- Temporary files weigh nothing.
size-insert_tmp :
    (path : ChunkPath) (payload : Bytes) (files : Dict ChunkPath Bytes)
    → is_tmp path.1 ≡ true
    → total_size_files (insert path payload files) ≡ total_size_files files
unfolding total_size_files insert
size-insert_tmp path payload [] t = ground arith
size-insert_tmp path payload ((p, old) ∷ files) t =
    ground (arith, pair_beq_iff p path, size-insert_tmp path payload files)

size-erase_tmp :
    (path : ChunkPath) (files : Dict ChunkPath Bytes)
    → is_tmp path.1 ≡ true
    → total_size_files (erase path files) ≡ total_size_files files
unfolding total_size_files erase
size-erase_tmp path [] t = refl
size-erase_tmp path ((p, old) ∷ files) t =
    ground (arith, pair_beq_iff p path, size-erase_tmp path files)

drop-append {ℓ} : {A : Type ℓ} (xs ys : List A) → drop (length xs) (xs ++ ys) ≡ ys
drop-append [] ys = refl
drop-append (x ∷ xs) ys = drop-append xs ys

tmp-is_tmp : (name : Bytes) → is_tmp (name ++ tmp_suffix) ≡ true
unfolding is_tmp
tmp-is_tmp name =
    let n : length (name ++ tmp_suffix) - 4 ≡ length name =
      omega (arith, length-append name tmp_suffix) in
    rw (n, drop-append name tmp_suffix) (beq_refl tmp_suffix)

size-write :
    (io : WriteOutcome) (path : ChunkPath) (payload : Bytes) (files : Dict ChunkPath Bytes)
    → (tmp_path path == path) ≡ false
    → is_tmp path.1 ≡ false
    → lookup path files ≡ none
    → let (well, after) = write_atomically io path payload files in
      total_size_files after ≡ total_size_files files + (if well then length payload else 0)
unfolding write_atomically
size-write written path payload files apart plain e = ground (
  arith,
  size-insert_new path payload (erase (tmp_path path) (insert (tmp_path path) payload files))
      (lookup-insert_tmp path (tmp_path path) path payload apart files ∙ e),
  size-erase_tmp (tmp_path path) (insert (tmp_path path) payload files) (tmp-is_tmp path.1),
  size-insert_tmp (tmp_path path) payload files (tmp-is_tmp path.1),
)
size-write write_fails path payload files apart plain e =
    omega (arith, size-erase_tmp (tmp_path path) files (tmp-is_tmp path.1))
size-write rename_fails path payload files apart plain e = omega (
  arith,
  size-erase_tmp (tmp_path path) (insert (tmp_path path) payload files) (tmp-is_tmp path.1),
  size-insert_tmp (tmp_path path) payload files (tmp-is_tmp path.1),
)

-- The bytes that a call of `store` reports as new.
abbrev pub added : Result Stored → ℕ
added (ok r) = if r.is_new then r.stored_bytes else 0
added (err e) = 0

module _ (F : FloatOps) (env : CasEnv F) where
  open env use {sha256}

  size-store_new :
      (io : WriteOutcome) (h payload : Bytes) (s : CasStore)
      → IsDigest h
      → All IsHexDigit h
      → lookup (chunk_path h) s.files ≡ none
      → let (r, after) = store_new F env io (chunk_path h) h payload s in
        total_size_files after.files ≡ total_size_files s.files + added r
  unfolding store_new
  size-store_new io h payload s w hex e = ground (
    arith,
    size-write io (chunk_path h) payload s.files (tmp_ne_chunk h h w w)
        (hex-is_tmp (drop 2 h) (All-drop IsHexDigit 2 h hex)) e,
  )

  -- A call of `store` makes the store's total size grow by the bytes that it reports as new: by
  -- none when the data is there already or the write fails.
  pub total_size-store :
      (io : WriteOutcome) (bytes : Bytes) (entropy : Option F.Float) (s : CasStore)
      → IsDigest (sha256 bytes)
      → All IsHexDigit (sha256 bytes)
      → let (r, after) = store F env io bytes entropy s in total_size after ≡ total_size s + added r
  unfolding store total_size
  total_size-store io bytes entropy s w hex =
      elim (Option-cases (lookup (chunk_path (sha256 bytes)) s.files)) [
        | inl e ↦ rw (e, store) (size-store_new io (sha256 bytes) _ s w hex e)
        | inr (old, e) ↦ rw (e, store) (omega arith)
      ]
