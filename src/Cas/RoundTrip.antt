-- ===== src/Cas/RoundTrip.antt =====
-- The store as a map from digests to data: what `retrieve` gives after each operation.
use backupos.Base.{
  ◌≡◌, inl, inr, refl, sym, ap, subst, ◌∙◌, Bool, true, false, ◌&&◌, Option, some, Bytes, bytes_eq,
  bytes_beq_iff, arith, ◌==◌, if◌then◌else◌, Bool-cases, Option-cases,
}
use backupos.Base.Dict.{lookup, pair_eq}
use backupos.Entropy.{FloatOps}
use backupos.Merkle.Collision.{IsDigest, IsCollisionFree}
use backupos.Cas.{
  CasStore, CasEnv, ok, WriteOutcome, chunk_path, is_ok, store, store_new, payload_of, decode,
  retrieve,
}
use backupos.Cas.Laws.{lookup-store_new, store_hit, store_miss}
use backupos.Cas.Decode.{
  IsZstd, IsFaithful, IsStorable, decode_found, retrieve-decode_found, decode-payload_of,
  decode_found-if,
}

module _ (F : FloatOps) (env : CasEnv F) where
  open env use {sha256, have_zstd, compress, decompress}

  module _ (zstd : IsZstd compress decompress) (free : IsCollisionFree sha256) where
    retrieve_faithful :
        (bytes old : Bytes) (s : CasStore)
        → IsFaithful F env s
        → lookup (chunk_path (sha256 bytes)) s.files ≡ some old
        → retrieve F env (sha256 bytes) s ≡ ok bytes
    unfolding decode_found
    retrieve_faithful bytes old s faithful e =
        let found = faithful (sha256 bytes) old (free.width bytes) e in
        retrieve-decode_found F env (sha256 bytes) s
        ∙ ap (decode_found F env) e
        ∙ found.1
        ∙ ap ok (free.injective found.0 bytes found.2)

    retrieve_hit :
        (bytes old j : Bytes) (s : CasStore)
        → IsFaithful F env s
        → lookup (chunk_path (sha256 bytes)) s.files ≡ some old
        → retrieve F env j s ≡ (if sha256 bytes == j then ok bytes else retrieve F env j s)
    retrieve_hit bytes old j s faithful e = elim (Bool-cases (sha256 bytes == j)) [
      | inl same ↦ rw same (
          subst (λ k. retrieve F env k s ≡ ok bytes) ((bytes_beq_iff _ j).0 same)
            (retrieve_faithful bytes old s faithful e))
      | inr other ↦ rw other refl
    ]

    if_hit :
        (b : Bool) (x y : Bytes) (o : Option Bytes)
        → b ≡ true
        → (if b then some x else o) ≡ some y
        → x ≡ y
    if_hit b x y o h e = ground arith

    if_miss :
        (b : Bool) (x y : Bytes) (o : Option Bytes)
        → b ≡ false
        → (if b then some x else o) ≡ some y
        → o ≡ some y
    if_miss b x y o h e = ground arith

    found_if :
        (b : Bool) (h j payload bytes found : Bytes) (s : CasStore)
        → IsFaithful F env s
        → decode F env payload ≡ ok bytes
        → sha256 bytes ≡ h
        → IsDigest j
        → (if b && h == j then some payload else lookup (chunk_path j) s.files) ≡ some found
        → (raw : Bytes) × (decode F env found ≡ ok raw) × (sha256 raw ≡ j)
    found_if false h j payload bytes found s faithful d w q e = faithful j found q e
    found_if true h j payload bytes found s faithful d w q e = elim (Bool-cases (h == j)) [
      | inl same ↦ (
        bytes,
        subst (λ x. decode F env x ≡ ok bytes) (if_hit _ payload found _ same e) d,
        w ∙ (bytes_beq_iff h j).0 same,
      )
      | inr other ↦ faithful j found q (if_miss _ payload found _ other e)
    ]

    store_new-found :
        (io : WriteOutcome) (h j payload bytes found : Bytes) (s : CasStore)
        → IsFaithful F env s
        → decode F env payload ≡ ok bytes
        → sha256 bytes ≡ h
        → IsDigest h
        → IsDigest j
        → lookup (chunk_path j) (store_new F env io (chunk_path h) h payload s).1.files ≡ some found
        → (raw : Bytes) × (decode F env found ≡ ok raw) × (sha256 raw ≡ j)
    store_new-found io h j payload bytes found s faithful d w p q e =
        found_if _ h j payload bytes found s faithful d w q
          (sym (lookup-store_new F env io h j payload s p q) ∙ e)

    -- `store`, however the write ends, either raises and leaves what `retrieve` gives of every
    -- digest alone, or returns and adds the data under its digest, and nothing else.
    pub retrieve-store :
        (io : WriteOutcome) (bytes : Bytes) (entropy : Option F.Float) (j : Bytes) (s : CasStore)
        → IsFaithful F env s
        → IsStorable F env bytes entropy
        → IsDigest j
        → let (r, after) = store F env io bytes entropy s in
          retrieve F env j after
          ≡ (if is_ok r && sha256 bytes == j then ok bytes else retrieve F env j s)
    unfolding store
    retrieve-store io bytes entropy j s faithful storable q =
        let h = sha256 bytes in
        let payload = payload_of F env bytes entropy in
        let (r, after) = store_new F env io (chunk_path h) h payload s in
        elim (Option-cases (lookup (chunk_path h) s.files)) [
          | inl e ↦
              rw (e, store)
                (retrieve-decode_found F env j after
                  ∙ ap (decode_found F env)
                      (lookup-store_new F env io h j payload s (free.width bytes) q)
                  ∙ decode_found-if F env (is_ok r && h == j) payload bytes _
                      (decode-payload_of F env zstd bytes entropy storable)
                  ∙ ap (λ x. if is_ok r && h == j then ok bytes else x)
                      (sym (retrieve-decode_found F env j s)))
          | inr (old, e) ↦ rw (e, store) (retrieve_hit bytes old j s faithful e)
        ]

    -- A store that decodes everything to its digest's data does so after `store`.
    pub store-IsFaithful :
        (io : WriteOutcome) (bytes : Bytes) (entropy : Option F.Float) (s : CasStore)
        → IsFaithful F env s
        → IsStorable F env bytes entropy
        → IsFaithful F env (store F env io bytes entropy s).1
    store-IsFaithful io bytes entropy s faithful storable =
        let h = sha256 bytes in
        let payload = payload_of F env bytes entropy in
        elim (Option-cases (lookup (chunk_path h) s.files)) [
          | inl e ↦
              subst (IsFaithful F env) (sym (store_miss F env io bytes entropy s e))
                (λ j found q at.
                  store_new-found io h j payload bytes found s faithful
                    (decode-payload_of F env zstd bytes entropy storable) refl (free.width bytes) q
                    at)
          | inr (old, e) ↦
              subst (IsFaithful F env) (sym (store_hit F env io bytes old entropy s e)) faithful
        ]
