-- ===== src/Backup/Manifest.antt =====
-- The manifests of a snapshot, and the rows that a new snapshot adds to the database.
use backupos.Base.{
  ℕ, ◌+◌, ◌≤◌, ◌<◌, ◌≡◌, refl, sym, ap, ◌∙◌, List, [], ◌∷◌, ◌++◌, map, Bytes, nat_eq, arith, length,
  take, drop, drop-drop, All, All-append,
}
use backupos.Entropy.{FloatOps}
use backupos.Cas.{CasEnv}
use backupos.Models.{BackupType, BackupSnapshot, SnapshotFile, Database}
use backupos.Backup.{ManifestEntry, ChunkRow, digests, all_chunks, snapshot_files}
use backupos.Backup.Steps.{persist}

module _ (sha256 : Bytes → Bytes) where
  -- The manifests written out: each file with the digests of its own chunks.
  unfoldable pub sealed : ℕ → List ManifestEntry → List SnapshotFile
  sealed snapshot_id [] = []
  sealed snapshot_id (e ∷ manifest) =
      record {
        snapshot_id = snapshot_id;
        file_path = e.rel_path;
        file_size = e.file_size;
        chunk_hashes = map sha256 e.file_chunks;
      }
      ∷ sealed snapshot_id manifest

  take-own : (own rest : List Bytes) → take (length own) (map sha256 (own ++ rest)) ≡ map sha256 own
  take-own [] rest = refl
  take-own (c ∷ own) rest = ap (λ t. sha256 c ∷ t) (take-own own rest)

  drop-own :
      (own rest : List Bytes) → drop (length own) (map sha256 (own ++ rest)) ≡ map sha256 rest
  drop-own [] rest = refl
  drop-own (c ∷ own) rest = drop-own own rest

  snapshot_files-from :
      (snapshot_id offset : ℕ) (hashes : List Bytes) (manifest : List ManifestEntry)
      → drop offset hashes ≡ map sha256 (all_chunks manifest)
      → snapshot_files snapshot_id hashes offset manifest ≡ sealed snapshot_id manifest
  unfolding snapshot_files sealed
  snapshot_files-from snapshot_id offset hashes [] h = refl
  snapshot_files-from snapshot_id offset hashes (e ∷ manifest) h =
      let n = length e.file_chunks in
      rw
        (
          h,
          take-own e.file_chunks (all_chunks manifest),
          snapshot_files-from snapshot_id (offset + n) hashes manifest (
              sym (drop-drop offset n hashes)
              ∙ ap (drop n) h
              ∙ drop-own e.file_chunks (all_chunks manifest)),
        )
        refl

  -- Cutting the digests of all chunks at the running offset gives each file its own.
  pub snapshot_files-sealed :
      (snapshot_id : ℕ) (manifest : List ManifestEntry)
      → snapshot_files snapshot_id (map sha256 (all_chunks manifest)) 0 manifest
        ≡ sealed snapshot_id manifest
  snapshot_files-sealed snapshot_id manifest =
      snapshot_files-from snapshot_id 0 (map sha256 (all_chunks manifest)) manifest refl

-- The ids of all rows about snapshots are behind the sequence.
pub record IsFresh {Float : Type 0} (db : Database Float) : Type 0 where
  pub ids : All (λ (s : BackupSnapshot Float). s.id < db.next_snapshot_id) db.snapshots
  pub manifests : All (λ (f : SnapshotFile). f.snapshot_id < db.next_snapshot_id) db.files

All-weaken {ℓ} :
    {A : Type ℓ} (key : A → ℕ) (m n : ℕ) (xs : List A)
    → m ≤ n
    → All (λ x. key x < m) xs
    → All (λ x. key x < n) xs
All-weaken key m n [] le h = tt
All-weaken key m n (x ∷ xs) le h = (omega (arith, h.0), All-weaken key m n xs le h.1)

snapshot_files-ids :
    (snapshot_id offset : ℕ) (hashes : List Bytes) (manifest : List ManifestEntry)
    → All
        (λ (f : SnapshotFile). f.snapshot_id < snapshot_id + 1)
        (snapshot_files snapshot_id hashes offset manifest)
unfolding snapshot_files
snapshot_files-ids snapshot_id offset hashes [] = tt
snapshot_files-ids snapshot_id offset hashes (e ∷ manifest) =
    (omega arith, snapshot_files-ids snapshot_id (offset + length e.file_chunks) hashes manifest)

module _ (F : FloatOps) (env : CasEnv F) where
  -- Writing the rows of a snapshot takes a new id from the sequence.
  pub persist-IsFresh :
      (now job_id source_id : ℕ) (backup_type : BackupType) (manifest : List ManifestEntry)
      (rows : List (ChunkRow F.Float)) (db : Database F.Float)
      → IsFresh db
      → IsFresh (persist F env now job_id source_id backup_type manifest rows db)
  unfolding persist
  persist-IsFresh now job_id source_id backup_type manifest rows db fresh = record {
    ids =
        All-append _ db.snapshots _
          (All-weaken (λ (s : BackupSnapshot F.Float). s.id) _ _ db.snapshots (omega arith)
            fresh.ids)
          (omega arith, tt);
    manifests =
        All-append _ db.files _
          (All-weaken (λ (f : SnapshotFile). f.snapshot_id) _ _ db.files (omega arith)
            fresh.manifests)
          (snapshot_files-ids db.next_snapshot_id 0 (digests rows) manifest);
  }
