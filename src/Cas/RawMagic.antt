-- ===== src/Cas/RawMagic.antt =====
-- Data that the store keeps raw although it starts like a zstandard frame.
use backupos.Base.{
  ◌≡◌, refl, ap, ◌∙◌, true, false, Option, none, some, Bytes, bytes_eq, take, beq_refl,
}
use backupos.Base.Dict.{lookup, pair_eq}
use backupos.Entropy.{FloatOps}
use backupos.Merkle.Collision.{IsCollisionFree}
use backupos.Cas.{
  CasStore, CasEnv, zstd_failed, ok, err, written, write_atomically, zstd_magic, chunk_path,
  payload_of, is_compressed, store, store_new, retrieve, decode,
}
use backupos.Cas.Decode.{decode_found, retrieve-decode_found}
use backupos.Cas.Laws.{lookup-store_new, store_miss}

module _ (F : FloatOps) (env : CasEnv F) (free : IsCollisionFree env.sha256) where
  open env use {sha256, have_zstd, decompress}

  decode_magic :
      (bytes : Bytes)
      → have_zstd ≡ true
      → take 4 bytes ≡ zstd_magic
      → decode F env bytes
        ≡ (elim (decompress bytes) [ none ↦ err zstd_failed | some raw ↦ ok raw ])
  unfolding decode
  decode_magic bytes have magic = rw (magic, beq_refl zstd_magic, have) refl

  payload_raw :
      (bytes : Bytes) (entropy : Option F.Float)
      → is_compressed F env bytes entropy ≡ false
      → payload_of F env bytes entropy ≡ bytes
  unfolding payload_of
  payload_raw bytes entropy e = rw e refl

  lookup-stored :
      (bytes : Bytes) (entropy : Option F.Float) (s : CasStore)
      → is_compressed F env bytes entropy ≡ false
      → lookup (chunk_path (sha256 bytes)) s.files ≡ none
      → lookup (chunk_path (sha256 bytes)) (store F env written bytes entropy s).1.files
        ≡ some bytes
  unfolding store_new write_atomically
  lookup-stored bytes entropy s raw e =
      let h = sha256 bytes in
      ap (λ (c : CasStore). lookup (chunk_path h) c.files)
        (store_miss F env written bytes entropy s e)
      ∙ lookup-store_new F env written h h _ s (free.width bytes) (free.width bytes)
      ∙ rw (beq_refl h, payload_raw bytes entropy raw) refl

  -- New data that is not compressed and starts with the magic number does not come back: what
  -- `retrieve` gives is the data decompressed, or an error.
  pub retrieve-raw_magic :
      (bytes : Bytes) (entropy : Option F.Float) (s : CasStore)
      → have_zstd ≡ true
      → is_compressed F env bytes entropy ≡ false
      → take 4 bytes ≡ zstd_magic
      → lookup (chunk_path (sha256 bytes)) s.files ≡ none
      → retrieve F env (sha256 bytes) (store F env written bytes entropy s).1
        ≡ (elim (decompress bytes) [ none ↦ err zstd_failed | some raw ↦ ok raw ])
  unfolding decode_found
  retrieve-raw_magic bytes entropy s have raw magic e =
      retrieve-decode_found F env (sha256 bytes) _
      ∙ ap (decode_found F env) (lookup-stored bytes entropy s raw e)
      ∙ decode_magic bytes have magic
