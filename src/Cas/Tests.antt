-- ===== src/Cas/Tests.antt =====
-- The store's theorems where their hypotheses hold.
use backupos.Base.{◌≡◌, refl, inl, some, [], ◌∷◌, ◌++◌, Bytes, bytes_beq, bytes_eq}
use backupos.Base.Dict.{lookup}
use backupos.Merkle.Sample.{sample_sha256, sample-IsCollisionFree}
use backupos.Cas.{
  CasStore, ok, written, zstd_magic, store, store_new, write_atomically, retrieve, is_compressed,
  entropy_of,
}
use backupos.Cas.Decode.{IsFaithful}
use backupos.Cas.RoundTrip.{retrieve-store, store-IsFaithful}
use backupos.Cas.RawMagic.{retrieve-raw_magic}
use backupos.Cas.Sample.{tenths, sample_env, sample-IsZstd, empty_store, empty-IsFaithful}

abbrev text : Bytes
text = 104 ∷ 105 ∷ []

abbrev one_chunk : CasStore
one_chunk = (store tenths sample_env written text (some 30) empty_store).1

-- A frame that is stored raw.
abbrev frame : Bytes
frame = zstd_magic ++ text

retrieve-store_example : retrieve tenths sample_env (sample_sha256 text) one_chunk ≡ ok text
unfolding store store_new write_atomically lookup bytes_beq is_compressed entropy_of sample_sha256
retrieve-store_example =
    retrieve-store tenths sample_env sample-IsZstd sample-IsCollisionFree written text (some 30)
      (sample_sha256 text) empty_store empty-IsFaithful (inl refl) refl

store-IsFaithful_example : IsFaithful tenths sample_env one_chunk
unfolding is_compressed entropy_of
store-IsFaithful_example =
    store-IsFaithful tenths sample_env sample-IsZstd sample-IsCollisionFree written text (some 30)
      empty_store empty-IsFaithful (inl refl)

-- The frame comes back as the text in it.
retrieve-raw_magic_example :
    retrieve tenths sample_env
      (sample_sha256 frame)
      (store tenths sample_env written frame (some 79) empty_store).1
    ≡ ok text
unfolding is_compressed entropy_of lookup
retrieve-raw_magic_example =
    retrieve-raw_magic tenths sample_env sample-IsCollisionFree frame (some 79) empty_store refl
      refl refl refl
