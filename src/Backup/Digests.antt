-- ===== src/Backup/Digests.antt =====
-- The digests that the loop of `run_backup` over the chunks collects.
use backupos.Base.{ℕ, ◌+◌, ◌≡◌, refl, inl, inr, some, List, [], ◌∷◌, map, Bytes, arith}
use backupos.Entropy.{FloatOps, shannon_entropy}
use backupos.Cas.{CasEnv, CasStore, Result-cases, ok, WriteOutcome, store, store_new, Stored}
use backupos.Backup.{ChunkRow, digests}
use backupos.Backup.Steps.{store_chunks}

module _ (F : FloatOps) (env : CasEnv F) where
  open F use {Float}
  open env use {sha256}

  store-digest :
      (w : WriteOutcome) (bytes : Bytes) (entropy : Float) (cas : CasStore) (s : Stored)
      → (store F env w bytes (some entropy) cas).0 ≡ ok s
      → s.digest ≡ sha256 bytes
  unfolding store store_new
  store-digest w bytes entropy cas s e = ground (arith, e)

  -- The digests of the rows are those of the chunks, whatever writes fail.
  pub digests-store_chunks :
      (io : ℕ → WriteOutcome) (i : ℕ) (chunks : List Bytes) (cas : CasStore)
      (rows : List (ChunkRow Float))
      → (store_chunks F env io i chunks cas).0 ≡ ok rows
      → digests rows ≡ map sha256 chunks
  unfolding store_chunks
  digests-store_chunks io i [] cas [] e = refl
  digests-store_chunks io i [] cas (r ∷ rows) e = absurd (cc e)
  digests-store_chunks io i (chunk ∷ chunks) cas rows e =
      let entropy_val = shannon_entropy F chunk in
      let after = (store F env (io i) chunk (some entropy_val) cas).1 in
      elim (Result-cases (store F env (io i) chunk (some entropy_val) cas).0) [
        | inr (x, raises) ↦ absurd (cc (rw (raises, store_chunks) at e))
        | inl (s, stored) ↦ elim (Result-cases (store_chunks F env io (i + 1) chunks after).0) [
          | inr (x, raises) ↦ absurd (cc (rw (stored, raises, store_chunks) at e))
          | inl (rest, more) ↦ ground (
            arith,
            store-digest (io i) chunk entropy_val cas s stored,
            digests-store_chunks io (i + 1) chunks after rest more,
            (rw (stored, more, store_chunks) at e),
          )
        ]
      ]
