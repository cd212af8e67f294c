-- ===== src/Restore/Tests.antt =====
-- A small directory, backed up and restored.
use backupos.Base.{◌≡◌, refl, Bool, true, none, [], Bytes, codes}
use backupos.Merkle.Sample.{sample-IsCollisionFree}
use backupos.Cas.Sample.{tenths, sample_env, sample-IsZstd, empty_store, empty-IsFaithful}
use backupos.Models.{full}
use backupos.Backup.{is_dir, returned, entry_of, collect_dir, get_job}
use backupos.Backup.Task.{no_faults, run_backup}
use backupos.Backup.Sample.{
  sample_job, sample_restore, sample_db, sample-IsFresh, clock, always, text, entries,
  text-AllStorable,
}
use backupos.Restore.{get_restore, restore_running}
use backupos.Restore.Task.{run_restore}
use backupos.Restore.Files.{copy_tree}
use backupos.Restore.EndToEnd.{IsRestored, restore-backup}

abbrev all_writable : Bytes → Bool
all_writable path = true

restore-backup_example :
    let (out, after, stored) =
      run_backup tenths sample_env clock no_faults always 7 1
        (is_dir entries)
        full
        sample_db
        empty_store in
    (out ≡ returned)
    × IsRestored tenths sample_env all_writable 202 3
        (run_restore tenths sample_env all_writable 201 202 3 5 none after stored [])
        (restore_running 201 sample_restore)
        (copy_tree entries [])
unfolding get_job get_restore collect_dir
restore-backup_example =
    restore-backup tenths sample_env all_writable sample-IsZstd sample-IsCollisionFree clock always
      7 1 entries full (entry_of (codes "a") text) [] sample_job sample_restore sample_db
      empty_store 201 202 3 [] refl refl (λ n. refl) (λ path. refl) refl empty-IsFaithful
      text-AllStorable sample-IsFresh
