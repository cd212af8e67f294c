-- ===== src/Cas/Decode.antt =====
-- What `retrieve` makes of a file, and what it needs of the data to give it back.
use backupos.Base.{
  ◌≡◌, ◌⊎◌, inl, inr, refl, Bool, true, false, ◌&&◌, Option, none, some, Bytes, bytes_eq, arith,
  take, ◌==◌, if◌then◌else◌, Bool-cases, beq_refl,
}
use backupos.Base.Dict.{lookup, pair_eq}
use backupos.Entropy.{FloatOps}
use backupos.Merkle.Collision.{IsDigest}
use backupos.Cas.{
  CasStore, CasEnv, file_not_found, Result, ok, err, zstd_magic, chunk_path, payload_of,
  is_compressed, decode, retrieve,
}

-- What the code relies on: a zstandard frame starts with the magic number and gives the data back.
pub record IsZstd (compress : Bytes → Bytes) (decompress : Bytes → Option Bytes) : Type 0 where
  pub magic : (bytes : Bytes) → take 4 (compress bytes) ≡ zstd_magic
  pub inverse : (bytes : Bytes) → decompress (compress bytes) ≡ some bytes

module _ (F : FloatOps) (env : CasEnv F) where
  open env use {sha256, have_zstd, compress, decompress}

  -- Every chunk decodes to data that has its digest.
  abbrev pub IsFaithful : CasStore → Type 0
  IsFaithful s =
      (h payload : Bytes)
      → IsDigest h
      → lookup (chunk_path h) s.files ≡ some payload
      → (bytes : Bytes) × (decode F env payload ≡ ok bytes) × (sha256 bytes ≡ h)

  -- Data that is compressed, or cannot be taken for compressed data.
  abbrev pub IsStorable : Bytes → Option F.Float → Type 0
  IsStorable bytes entropy =
      (is_compressed F env bytes entropy ≡ true) ⊎ ((take 4 bytes == zstd_magic) ≡ false)

  unfoldable pub decode_found : Option Bytes → Result Bytes
  decode_found none = err file_not_found
  decode_found (some payload) = decode F env payload

  pub retrieve-decode_found :
      (h : Bytes) (s : CasStore) → retrieve F env h s ≡ decode_found (lookup (chunk_path h) s.files)
  unfolding retrieve decode_found
  retrieve-decode_found h s = refl

  pub decode_found-if :
      (b : Bool) (payload bytes : Bytes) (found : Option Bytes)
      → decode F env payload ≡ ok bytes
      → decode_found (if b then some payload else found)
        ≡ (if b then ok bytes else decode_found found)
  unfolding decode_found
  decode_found-if true payload bytes found e = e
  decode_found-if false payload bytes found e = refl

  module _ (zstd : IsZstd compress decompress) where
    decode-compress : (bytes : Bytes) → have_zstd ≡ true → decode F env (compress bytes) ≡ ok bytes
    unfolding decode
    decode-compress bytes have =
        rw (zstd.magic bytes, beq_refl zstd_magic, have, zstd.inverse bytes) refl

    and_left : (a b : Bool) → (a && b) ≡ true → a ≡ true
    and_left a b e = ground arith

    pub have-is_compressed :
        (bytes : Bytes) (entropy : Option F.Float)
        → is_compressed F env bytes entropy ≡ true
        → have_zstd ≡ true
    unfolding is_compressed
    have-is_compressed bytes entropy e = and_left _ _ e

    pub decode_raw :
        (bytes : Bytes) → (take 4 bytes == zstd_magic) ≡ false → decode F env bytes ≡ ok bytes
    unfolding decode
    decode_raw bytes plain = rw plain refl

    pub decode-payload_of :
        (bytes : Bytes) (entropy : Option F.Float)
        → IsStorable bytes entropy
        → decode F env (payload_of F env bytes entropy) ≡ ok bytes
    unfolding payload_of
    decode-payload_of bytes entropy (inl e) =
        rw e (decode-compress bytes (have-is_compressed bytes entropy e))
    decode-payload_of bytes entropy (inr plain) =
        elim (Bool-cases (is_compressed F env bytes entropy)) [
          | inl e ↦ rw e (decode-compress bytes (have-is_compressed bytes entropy e))
          | inr e ↦ rw e (decode_raw bytes plain)
        ]
