-- ===== src/Cas.antt =====
-- app/core/cas.py: content-addressable storage. The directory tree under the store's root is a
-- dictionary from (shard directory, file name) to contents, with the shard directories that exist.
-- `hashlib.sha256(·).hexdigest()`, the zstandard library and the floats are parameters; how the
-- file system answers a write is an argument.
mod Laws
pub mod Decode
pub mod RoundTrip
mod RawMagic
pub mod Removal
mod Sizes
pub mod Sample
mod Tests
use backupos.Base.{
  ◌≡◌, refl, ◌⊎◌, inl, inr, ℕ, zero, suc, ◌+◌, ◌-◌, ◌≡◌, Bool, true, false, not, ◌&&◌, Option, none,
  some, List, [], ◌∷◌, ◌++◌, Bytes, bytes_eq, codes, contains, ◌==◌, length, take, drop,
  if◌then◌else◌,
}
use backupos.Base.Dict.{Dict, lookup, insert, erase, pair_eq}
use backupos.Entropy.{FloatOps, shannon_entropy}

-- A file below the root: its directory and its name.
abbrev pub ChunkPath : Type 0
ChunkPath = Bytes × Bytes

pub record CasStore : Type 0 where
  pub files : Dict ChunkPath Bytes
  pub shards : List Bytes

-- What the store calls and does not implement. `decompress` gives `none` where it raises.
pub record CasEnv (F : FloatOps) : Type 0 where
  pub sha256 : Bytes → Bytes
  pub have_zstd : Bool
  pub compress : Bytes → Bytes
  pub decompress : Bytes → Option Bytes

pub data CasError : Type 0 where
  file_not_found zstd_missing zstd_failed os_error : CasError

pub data Result (A : Type 0) : Type 0 where
  ok : A → Result A
  err : CasError → Result A

-- Whether `write_bytes` and `rename` succeed.
pub data WriteOutcome : Type 0 where
  written write_fails rename_fails : WriteOutcome

abbrev pub is_ok : {A : Type 0} → Result A → Bool
is_ok (ok a) = true
is_ok (err e) = false

pub Result-cases :
    {A : Type 0} (r : Result A) → ((a : A) × (r ≡ ok a)) ⊎ ((e : CasError) × (r ≡ err e))
Result-cases (ok a) = inl (a, refl)
Result-cases (err e) = inr (e, refl)

-- What `store` returns.
pub record Stored : Type 0 where
  pub digest : Bytes
  pub is_new : Bool
  pub stored_bytes : ℕ

abbrev pub zstd_magic : Bytes
zstd_magic = 0x28 ∷ 0xb5 ∷ 0x2f ∷ 0xfd ∷ []

abbrev pub tmp_suffix : Bytes
tmp_suffix = codes ".tmp"

abbrev pub chunk_path : Bytes → ChunkPath
chunk_path chunk_hash = (take 2 chunk_hash, drop 2 chunk_hash)

-- `path.with_suffix(".tmp")`: a digest has no dot, so nothing is replaced.
abbrev pub tmp_path : ChunkPath → ChunkPath
tmp_path (shard, name) = (shard, name ++ tmp_suffix)

-- `parent.mkdir(parents=True, exist_ok=True)`
unfoldable pub mkdir : Bytes → List Bytes → List Bytes
mkdir shard shards = if contains shards shard then shards else shard ∷ shards

-- The writes of `store`: to a temporary file that is then renamed, and removed after a failure.
unfoldable pub write_atomically :
    WriteOutcome → ChunkPath → Bytes → Dict ChunkPath Bytes → Bool × Dict ChunkPath Bytes
write_atomically written path payload files =
    (true, insert path payload (erase (tmp_path path) (insert (tmp_path path) payload files)))
write_atomically write_fails path payload files = (false, erase (tmp_path path) files)
write_atomically rename_fails path payload files =
    (false, erase (tmp_path path) (insert (tmp_path path) payload files))

unfoldable pub shard_empty : Bytes → Dict ChunkPath Bytes → Bool
shard_empty shard [] = true
shard_empty shard (((s, _), _) ∷ files) = not (s == shard) && shard_empty shard files

unfoldable pub remove_shard : Bytes → List Bytes → List Bytes
remove_shard shard [] = []
remove_shard shard (s ∷ shards) =
    let rest = remove_shard shard shards in if s == shard then rest else s ∷ rest

unfoldable pub exists : Bytes → CasStore → Bool
exists chunk_hash s = elim (lookup (chunk_path chunk_hash) s.files) [ none ↦ false | some _ ↦ true ]

-- `unlink`, and `rmdir` of the shard directory, which fails unless it is empty.
unfoldable pub delete : Bytes → CasStore → Bool × CasStore
delete chunk_hash s =
    if exists chunk_hash s
    then (let path = chunk_path chunk_hash in
        let files = erase path s.files in
        (
          true,
          record {
            files = files;
            shards = if shard_empty path.0 files then remove_shard path.0 s.shards else s.shards;
          },
        ))
    else (false, s)

-- `fname.endswith(".tmp")`
unfoldable pub is_tmp : Bytes → Bool
is_tmp name = drop (length name - 4) name == tmp_suffix

unfoldable pub total_size_files : Dict ChunkPath Bytes → ℕ
total_size_files [] = 0
total_size_files (((_, name), payload) ∷ files) =
    (if is_tmp name then 0 else length payload) + total_size_files files

unfoldable pub total_size : CasStore → ℕ
total_size s = total_size_files s.files

pub record CasStats : Type 0 where
  pub chunk_count : ℕ
  pub compressed_bytes : ℕ

unfoldable pub stats_loop : Dict ChunkPath Bytes → CasStats → CasStats
stats_loop [] st = st
stats_loop (((_, name), payload) ∷ files) st = stats_loop files (
    if is_tmp name then st else record {
      chunk_count = st.chunk_count + 1;
      compressed_bytes = st.compressed_bytes + length payload;
    })

unfoldable pub stats : CasStore → CasStats
stats s = stats_loop s.files (record { chunk_count = 0; compressed_bytes = 0 })

module _ (F : FloatOps) (env : CasEnv F) where
  open F use {Float, decimal, lt}
  open env use {sha256, have_zstd, compress, decompress}

  -- The entropy that `store` is given, or computes.
  unfoldable pub entropy_of : Bytes → Option Float → Float
  entropy_of bytes none = shannon_entropy F bytes
  entropy_of bytes (some entropy) = entropy

  unfoldable pub is_compressed : Bytes → Option Float → Bool
  is_compressed bytes entropy = have_zstd && lt (entropy_of bytes entropy) (decimal 72 1)

  unfoldable pub payload_of : Bytes → Option Float → Bytes
  payload_of bytes entropy = if is_compressed bytes entropy then compress bytes else bytes

  unfoldable pub store_new :
      WriteOutcome → ChunkPath → Bytes → Bytes → CasStore → Result Stored × CasStore
  store_new io path digest payload s =
      let (well, files) = write_atomically io path payload s.files in
      (
        (if well
            then ok (record { digest = digest; is_new = true; stored_bytes = length payload })
            else err os_error),
        record { files = files; shards = mkdir path.0 s.shards },
      )

  unfoldable pub store : WriteOutcome → Bytes → Option Float → CasStore → Result Stored × CasStore
  store io bytes entropy s =
      let digest = sha256 bytes in
      let path = chunk_path digest in
      elim (lookup path s.files) [
        | some old ↦ (ok (record { digest = digest; is_new = false; stored_bytes = length old }), s)
        | none ↦ store_new io path digest (payload_of bytes entropy) s
      ]

  unfoldable pub decode : Bytes → Result Bytes
  decode payload =
      if take 4 payload == zstd_magic
      then (if not have_zstd
          then err zstd_missing
          else elim (decompress payload) [ none ↦ err zstd_failed | some bytes ↦ ok bytes ])
      else ok payload

  unfoldable pub retrieve : Bytes → CasStore → Result Bytes
  unfolding decode
  retrieve chunk_hash s = elim (lookup (chunk_path chunk_hash) s.files) [
    | none ↦ err file_not_found
    | some payload ↦ decode payload
  ]
