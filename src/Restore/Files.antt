-- ===== src/Restore/Files.antt =====
-- The files that `run_restore` writes when every chunk is found.
use backupos.Base.{
  ℕ, ◌≡◌, refl, sym, ap, ◌∙◌, Bool, true, Option, none, some, List, [], ◌∷◌, ◌++◌, append-nil,
  append_assoc, map, map-append, Bytes, bytes_eq,
}
use mathlib.Core.List.{flatten}
use backupos.Base.Dict.{Dict, insert}
use backupos.Entropy.{FloatOps}
use backupos.Chunker.Lossless.{flatten-chunk_data}
use backupos.Cas.{CasEnv, CasStore}
use backupos.Models.{SnapshotFile, TaskError}
use backupos.Backup.{ManifestEntry, entry_of, collect_dir, all_chunks}
use backupos.Backup.Manifest.{sealed}
use backupos.Backup.Stored.{AllFound}
use backupos.Restore.{value, write_chunks, restore_file, restore_files}

-- The files of a manifest, written one after the other.
pub write_all : List ManifestEntry → Dict Bytes Bytes → Dict Bytes Bytes
write_all [] disk = disk
write_all (e ∷ manifest) disk = write_all manifest (insert e.rel_path (flatten e.file_chunks) disk)

-- The readable files below a directory, copied one after the other.
unfoldable pub copy_tree : List (Bytes × Option Bytes) → Dict Bytes Bytes → Dict Bytes Bytes
copy_tree [] disk = disk
copy_tree ((path, none) ∷ entries) disk = copy_tree entries disk
copy_tree ((path, some bytes) ∷ entries) disk = copy_tree entries (insert path bytes disk)

-- Chunking and joining the chunks again copies the tree.
pub write_all-collect_dir :
    (entries : List (Bytes × Option Bytes)) (disk : Dict Bytes Bytes)
    → write_all (collect_dir entries) disk ≡ copy_tree entries disk
unfolding write_all copy_tree collect_dir entry_of
write_all-collect_dir [] disk = refl
write_all-collect_dir ((path, none) ∷ entries) disk = write_all-collect_dir entries disk
write_all-collect_dir ((path, some bytes) ∷ entries) disk =
    ap (λ b. write_all (collect_dir entries) (insert path b disk)) (flatten-chunk_data bytes)
    ∙ write_all-collect_dir entries (insert path bytes disk)

module _ (F : FloatOps) (env : CasEnv F) (writable : Bytes → Bool) where
  open env use {sha256}

  write_chunks-found :
      (cas : CasStore) (chunks : List Bytes) (content : Bytes)
      → AllFound F env chunks cas
      → write_chunks F env writable cas (map sha256 chunks) content
        ≡ (content ++ flatten chunks, none)
  unfolding write_chunks flatten
  write_chunks-found cas [] content h = ap (λ c. (c, none)) (sym (append-nil content))
  write_chunks-found cas (c ∷ chunks) content h =
      rw (h.0, write_chunks)
        (write_chunks-found cas chunks (content ++ c) h.1
          ∙ ap (λ b. (b, none)) (append_assoc content c (flatten chunks)))

  restore_file-found :
      (cas : CasStore) (path : Bytes) (chunks : List Bytes) (disk : Dict Bytes Bytes)
      → writable path ≡ true
      → AllFound F env chunks cas
      → restore_file F env writable cas path (map sha256 chunks) disk
        ≡ (insert path (flatten chunks) disk, none)
  unfolding restore_file
  restore_file-found cas path chunks disk w h = rw (w, write_chunks-found cas chunks [] h) refl

  found_left :
      (cas : CasStore) (xs ys : List Bytes) → AllFound F env (xs ++ ys) cas → AllFound F env xs cas
  found_left cas [] ys h = tt
  found_left cas (x ∷ xs) ys h = (h.0, found_left cas xs ys h.1)

  found_right :
      (cas : CasStore) (xs ys : List Bytes) → AllFound F env (xs ++ ys) cas → AllFound F env ys cas
  found_right cas [] ys h = h
  found_right cas (x ∷ xs) ys h = found_right cas xs ys h.1

  restore_files-step :
      (cas : CasStore) (f : SnapshotFile) (files : List SnapshotFile) (hashes : List Bytes)
      (disk after : Dict Bytes Bytes)
      → restore_file F env writable cas f.file_path f.chunk_hashes disk ≡ (after, none)
      → restore_files F env writable cas (f ∷ files) hashes disk
        ≡ restore_files F env writable cas files (hashes ++ f.chunk_hashes) after
  unfolding restore_files
  restore_files-step cas f files hashes disk after e =
      rw (ap (λ (r : Dict Bytes Bytes × Option TaskError). r.1) e, restore_files)
        (ap
          (λ (r : Dict Bytes Bytes × Option TaskError).
            restore_files F env writable cas files (hashes ++ f.chunk_hashes) r.0)
          e)

  -- Restoring the files of a manifest writes them all, and reports the digests of their chunks.
  pub restore_files-sealed :
      (cas : CasStore) (n : ℕ) (manifest : List ManifestEntry) (hashes : List Bytes)
      (disk : Dict Bytes Bytes)
      → ((path : Bytes) → writable path ≡ true)
      → AllFound F env (all_chunks manifest) cas
      → restore_files F env writable cas (sealed sha256 n manifest) hashes disk
        ≡ (write_all manifest disk, value (hashes ++ map sha256 (all_chunks manifest)))
  unfolding restore_files sealed write_all
  restore_files-sealed cas n [] hashes disk w h =
      ap (λ hs. (disk, value hs)) (sym (append-nil hashes))
  restore_files-sealed cas n (e ∷ manifest) hashes disk w h =
      let own = map sha256 e.file_chunks in
      let copied = insert e.rel_path (flatten e.file_chunks) disk in
      restore_files-step cas
        (record {
          snapshot_id = n;
          file_path = e.rel_path;
          file_size = e.file_size;
          chunk_hashes = own;
        })
        (sealed sha256 n manifest) hashes disk copied
        (restore_file-found cas e.rel_path e.file_chunks disk (w e.rel_path)
          (found_left cas e.file_chunks _ h))
      ∙ restore_files-sealed cas n manifest (hashes ++ own) copied w
          (found_right cas e.file_chunks _ h)
      ∙ ap (λ hs. (write_all manifest copied, value hs))
          (append_assoc hashes own (map sha256 (all_chunks manifest))
            ∙ ap (λ t. hashes ++ t) (sym (map-append sha256 e.file_chunks (all_chunks manifest))))
