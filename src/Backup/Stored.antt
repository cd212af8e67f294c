-- ===== src/Backup/Stored.antt =====
-- What the loop of `run_backup` over the chunks leaves in the store.
use backupos.Base.{
  ℕ, ◌+◌, ◌≡◌, refl, sym, ap, subst, ◌∙◌, inl, inr, Bool, true, false, ◌&&◌, Option, some, List, [],
  ◌∷◌, map, Bytes, bytes_eq, bytes_beq_iff, beq_refl, ◌==◌, All, Bool-cases, Option-cases,
  if◌then◌else◌, length,
}
use backupos.Base.Dict.{lookup, pair_eq}
use backupos.Entropy.{FloatOps, shannon_entropy}
use backupos.Merkle.Collision.{IsCollisionFree}
use backupos.Cas.{
  CasEnv, CasStore, Result, ok, is_ok, Result-cases, WriteOutcome, written, write_atomically, store,
  store_new, retrieve, Stored, chunk_path, payload_of,
}
use backupos.Cas.Decode.{IsZstd, IsFaithful, IsStorable}
use backupos.Cas.RoundTrip.{retrieve-store, store-IsFaithful}
use backupos.Backup.{ChunkRow, digests}
use backupos.Backup.Steps.{store_chunks}

module _ (F : FloatOps) (env : CasEnv F) where
  open env use {sha256, compress, decompress}

  -- `store` gives back the digest of the data, and raises only when a write fails.
  store_written :
      (bytes : Bytes) (entropy : Option F.Float) (s : CasStore)
      → (r : Stored) × ((store F env written bytes entropy s).0 ≡ ok r) × (r.digest ≡ sha256 bytes)
  unfolding store store_new write_atomically
  store_written bytes entropy s = elim (Option-cases (lookup (chunk_path (sha256 bytes)) s.files)) [
    | inl e ↦ (
      record {
        digest = sha256 bytes;
        is_new = true;
        stored_bytes = length (payload_of F env bytes entropy);
      },
      rw (e, store) refl,
      refl,
    )
    | inr (old, e) ↦ (
      record { digest = sha256 bytes; is_new = false; stored_bytes = length old },
      rw (e, store) refl,
      refl,
    )
  ]

  store_digest :
      (io : WriteOutcome) (bytes : Bytes) (entropy : Option F.Float) (s : CasStore)
      → io ≡ written
      → (r : Stored) × ((store F env io bytes entropy s).0 ≡ ok r) × (r.digest ≡ sha256 bytes)
  store_digest io bytes entropy s good =
      subst
        (λ w. (r : Stored) × ((store F env w bytes entropy s).0 ≡ ok r) × (r.digest ≡ sha256 bytes))
        (sym good) (store_written bytes entropy s)

  -- The data whose digest gives it back in one store does in another.
  abbrev pub IsKept : CasStore → CasStore → Type 0
  IsKept s after =
      (c : Bytes) → retrieve F env (sha256 c) s ≡ ok c → retrieve F env (sha256 c) after ≡ ok c

  abbrev pub AllFound : List Bytes → CasStore → Type 0
  AllFound chunks s = All (λ c. retrieve F env (sha256 c) s ≡ ok c) chunks

  abbrev pub AllStorable : List Bytes → Type 0
  AllStorable chunks = All (λ c. IsStorable F env c (some (shannon_entropy F c))) chunks

  module _ (zstd : IsZstd compress decompress) (free : IsCollisionFree sha256) where
    store-IsKept :
        (io : WriteOutcome) (bytes : Bytes) (entropy : Option F.Float) (s : CasStore)
        → IsFaithful F env s
        → IsStorable F env bytes entropy
        → IsKept s (store F env io bytes entropy s).1
    store-IsKept io bytes entropy s faithful storable = λ c e.
        retrieve-store F env zstd free io bytes entropy (sha256 c) s faithful storable
          (free.width c)
        ∙ kept c e (is_ok (store F env io bytes entropy s).0)
      where
        kept :
            (c : Bytes)
            → retrieve F env (sha256 c) s ≡ ok c
            → (b : Bool)
            → (if b && sha256 bytes == sha256 c then ok bytes else retrieve F env (sha256 c) s)
              ≡ ok c
        kept c e false = e
        kept c e true = elim (Bool-cases (sha256 bytes == sha256 c)) [
          | inl same ↦ rw same (ap ok (free.injective bytes c ((bytes_beq_iff _ _).0 same)))
          | inr other ↦ rw other e
        ]

    store-found :
        (io : WriteOutcome) (bytes : Bytes) (entropy : Option F.Float) (s : CasStore)
        → io ≡ written
        → IsFaithful F env s
        → IsStorable F env bytes entropy
        → retrieve F env (sha256 bytes) (store F env io bytes entropy s).1 ≡ ok bytes
    store-found io bytes entropy s good faithful storable =
        let (r, e, d) = store_digest io bytes entropy s good in
        retrieve-store F env zstd free io bytes entropy (sha256 bytes) s faithful storable
          (free.width bytes)
        ∙ rw (e, beq_refl (sha256 bytes)) refl

    -- A step of the loop goes on after a call that returns, and ends after one that raises.
    store_chunks-step :
        (io : ℕ → WriteOutcome) (i : ℕ) (c : Bytes) (chunks : List Bytes) (s : CasStore)
        → let (stored, after) = store F env (io i) c (some (shannon_entropy F c)) s in
          (store_chunks F env io i (c ∷ chunks) s).1
          ≡ (if is_ok stored then (store_chunks F env io (i + 1) chunks after).1 else after)
    unfolding store_chunks
    store_chunks-step io i c chunks s =
        let (stored, after) = store F env (io i) c (some (shannon_entropy F c)) s in
        elim (Result-cases stored) [
          | inr (e, raises) ↦ rw (raises, store_chunks) refl
          | inl (r, returns) ↦ elim (Result-cases (store_chunks F env io (i + 1) chunks after).0) [
            | inr (e, raises) ↦ rw (returns, raises, store_chunks) refl
            | inl (rows, returns_all) ↦ rw (returns, returns_all, store_chunks) refl
          ]
        ]

    step {ℓ} :
        (P : CasStore → Type ℓ) (b : Bool) (x y : CasStore) → P x → P y → P (if b then x else y)
    step P true x y h k = h
    step P false x y h k = k

    -- Storing chunks keeps the store faithful, also when a write fails on the way.
    pub store_chunks-IsFaithful :
        (io : ℕ → WriteOutcome) (i : ℕ) (chunks : List Bytes) (s : CasStore)
        → IsFaithful F env s
        → AllStorable chunks
        → IsFaithful F env (store_chunks F env io i chunks s).1
    unfolding store_chunks
    store_chunks-IsFaithful io i [] s faithful storable = faithful
    store_chunks-IsFaithful io i (c ∷ chunks) s faithful storable =
        let kept =
          store-IsFaithful F env zstd free (io i) c (some (shannon_entropy F c)) s faithful
            storable.0 in
        subst (IsFaithful F env) (sym (store_chunks-step io i c chunks s)) (
          step (IsFaithful F env) _ _ _
            (store_chunks-IsFaithful io (i + 1) chunks _ kept storable.1) kept)

    -- Whatever of the writes fails, storing chunks loses none of the data in the store.
    pub store_chunks-IsKept :
        (io : ℕ → WriteOutcome) (i : ℕ) (chunks : List Bytes) (s : CasStore)
        → IsFaithful F env s
        → AllStorable chunks
        → IsKept s (store_chunks F env io i chunks s).1
    unfolding store_chunks
    store_chunks-IsKept io i [] s faithful storable = λ d found. found
    store_chunks-IsKept io i (c ∷ chunks) s faithful storable =
        let entropy = some (shannon_entropy F c) in
        let still = store-IsFaithful F env zstd free (io i) c entropy s faithful storable.0 in
        let kept = store-IsKept (io i) c entropy s faithful storable.0 in
        subst (IsKept s) (sym (store_chunks-step io i c chunks s)) (
          step (IsKept s) _ _ _
            (λ d found. store_chunks-IsKept io (i + 1) chunks _ still storable.1 d (kept d found))
            kept)

    -- The loop when no write fails.
    pub record IsStored (chunks : List Bytes) (run : Result (List (ChunkRow F.Float)) × CasStore)
        : Type 0 where
      pub rows : List (ChunkRow F.Float)
      pub returns : run.0 ≡ ok rows
      pub hashes : digests rows ≡ map sha256 chunks
      pub found : AllFound chunks run.1

    pub store_chunks-IsStored :
        (io : ℕ → WriteOutcome) (i : ℕ) (chunks : List Bytes) (s : CasStore)
        → ((n : ℕ) → io n ≡ written)
        → IsFaithful F env s
        → AllStorable chunks
        → IsStored chunks (store_chunks F env io i chunks s)
    unfolding store_chunks
    store_chunks-IsStored io i [] s good faithful storable = record {
      rows = [];
      returns = refl;
      hashes = refl;
      found = tt;
    }
    store_chunks-IsStored io i (c ∷ chunks) s good faithful storable =
        let entropy = some (shannon_entropy F c) in
        let still = store-IsFaithful F env zstd free (io i) c entropy s faithful storable.0 in
        let after = (store F env (io i) c entropy s).1 in
        let rest = store_chunks-IsStored io (i + 1) chunks after good still storable.1 in
        let (r, returns, digest) = store_digest (io i) c entropy s (good i) in
        let final : (store_chunks F env io i (c ∷ chunks) s).1
            ≡ (store_chunks F env io (i + 1) chunks after).1 =
          store_chunks-step io i c chunks s ∙ rw returns refl in
        record {
          rows =
              record {
                digest = r.digest;
                size = length c;
                stored_size = r.stored_bytes;
                is_new = r.is_new;
                entropy = shannon_entropy F c;
              }
              ∷ rest.rows;
          returns = rw (returns, rest.returns, store_chunks) refl;
          hashes = cc (digest, rest.hashes);
          found = (
            subst (λ x. retrieve F env (sha256 c) x ≡ ok c) (sym final)
                (store_chunks-IsKept io (i + 1) chunks after still storable.1 c
                  (store-found (io i) c entropy s (good i) faithful storable.0)),
            subst (AllFound chunks) (sym final) rest.found,
          );
        }
