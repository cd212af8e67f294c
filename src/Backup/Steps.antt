-- ===== src/Backup/Steps.antt =====
-- app/workers/backup_worker.py: steps 3 to 6 of `run_backup`.
use backupos.Base.{ℕ, ◌+◌, Option, none, some, List, [], ◌∷◌, ◌++◌, Bytes, bytes_eq, nat_eq, length}
use backupos.Entropy.{FloatOps, shannon_entropy}
use backupos.Merkle.{root_hash, diff}
use backupos.Cas.{CasEnv, CasStore, Result, ok, err, WriteOutcome, store}
use backupos.Models.{BackupType, full, incremental, BackupSnapshot, Database}
use backupos.Backup.{
  ManifestEntry, ChunkRow, latest, hashes_of, total_of, dedup_of, digests, new_chunks,
  snapshot_files, distinct,
}

module _ (F : FloatOps) (env : CasEnv F) where
  open F use {Float, of_nat, decimal, add, div}
  open env use {sha256}

  -- The loop that stores the chunks, the first one of which is number `i`.
  unfoldable pub store_chunks :
      (ℕ → WriteOutcome) → ℕ → List Bytes → CasStore → Result (List (ChunkRow Float)) × CasStore
  store_chunks io i [] cas = (ok [], cas)
  store_chunks io i (chunk ∷ chunks) cas =
      let entropy_val = shannon_entropy F chunk in
      let (stored, after) = store F env (io i) chunk (some entropy_val) cas in
      let (rest, final) = store_chunks io (i + 1) chunks after in
      elim stored [
        | err e ↦ (err e, after)
        | ok s ↦ elim rest [
          | err e ↦ (err e, final)
          | ok rows ↦ (
            ok (
                record {
                  digest = s.digest;
                  size = length chunk;
                  stored_size = s.stored_bytes;
                  is_new = s.is_new;
                  entropy = entropy_val;
                }
                ∷ rows),
            final,
          )
        ]
      ]

  unfoldable pub sum_entropies : Float → List (ChunkRow Float) → Float
  sum_entropies acc [] = acc
  sum_entropies acc (r ∷ rows) = sum_entropies (add acc r.entropy) rows

  unfoldable pub average_of : List (ChunkRow Float) → Float
  unfolding sum_entropies
  average_of [] = decimal 0 1
  average_of (r ∷ rows) = div (sum_entropies (of_nat 0) (r ∷ rows)) (of_nat (length (r ∷ rows)))

  -- The snapshot that an incremental backup is compared with.
  unfoldable pub previous : BackupType → ℕ → Database Float → Option (BackupSnapshot Float)
  previous full source_id db = none
  previous incremental source_id db = latest source_id db.snapshots

  -- The list whose elements are the set `new_hashes`.
  unfoldable pub new_hashes_of :
      List Bytes → Option (BackupSnapshot Float) → Database Float → List Bytes
  new_hashes_of chunk_hashes none db = chunk_hashes
  new_hashes_of chunk_hashes (some prev) db = diff sha256 chunk_hashes (hashes_of prev.id db.chunks)

  -- Steps 4 to 6: the rows of the snapshot.
  unfoldable pub persist :
      ℕ
      → ℕ
      → ℕ
      → BackupType
      → List ManifestEntry
      → List (ChunkRow Float)
      → Database Float
      → Database Float
  persist now job_id source_id backup_type manifest rows db =
      let chunk_hashes = digests rows in
      let prev = previous backup_type source_id db in
      let new_hashes = new_hashes_of chunk_hashes prev db in
      let snapshot_id = db.next_snapshot_id in
      record db {
        snapshots =
            db.snapshots
            ++ record {
              id = snapshot_id;
              job_id = job_id;
              source_id = source_id;
              merkle_root = root_hash sha256 chunk_hashes;
              parent_snapshot_id = elim prev [ none ↦ none | some p ↦ some p.id ];
              total_size_bytes = total_of rows;
              dedup_size_bytes = dedup_of rows;
              chunk_count = length chunk_hashes;
              new_chunk_count = distinct new_hashes;
              average_entropy = average_of rows;
              created_at = now;
              locked_until = none;
              last_verified_at = none;
              verification_status = none;
            }
              ∷ [];
        files = db.files ++ snapshot_files snapshot_id chunk_hashes 0 manifest;
        chunks = db.chunks ++ new_chunks snapshot_id new_hashes rows;
        next_snapshot_id = snapshot_id + 1;
      }
