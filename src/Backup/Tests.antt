-- ===== src/Backup/Tests.antt =====
-- Backups that succeed and that fail, and the theorems where their hypotheses hold.
use backupos.Base.{
  ◌≡◌, refl, true, false, length, none, some, [], ◌∷◌, codes, subst, List, inl, bytes_beq,
}
use backupos.Merkle.Sample.{sample_sha256, sample-IsCollisionFree}
use backupos.Cas.{
  CasStore, ok, os_error, retrieve, store, store_new, write_atomically, written, is_compressed,
  entropy_of, payload_of, decode,
}
use backupos.Cas.RoundTrip.{store-IsFaithful}
use backupos.Base.Dict.{lookup, insert, erase, pair_beq}
use backupos.Backup.Stored.{AllStorable}
use backupos.Cas.Decode.{IsFaithful}
use backupos.Cas.Sample.{tenths, sample_env, sample-IsZstd, empty_store, empty-IsFaithful}
use backupos.Models.{full, cas_error, database_error}
use backupos.Backup.{
  ManifestEntry, all_chunks, is_dir, is_file, returned, entry_of, collect_dir, collect, get_job,
  set_job, to_running, retry,
}
use backupos.Backup.Alerts.{detect}
use backupos.Backup.Steps.{persist, store_chunks}
use backupos.Backup.Task.{
  DbFaults, starting, comparing, persisting, detecting, alerting, completing, no_faults, run_backup,
  work, start, finish, check, fail,
}
use backupos.Backup.Success.{IsBackedUp, run_backup-IsBackedUp}
use backupos.Backup.Failure.{SourceStorable, retrieve-run_backup}
use backupos.Backup.Settled.{IsSettled, run_backup-IsSettled}
use backupos.Backup.Sample.{
  sample_job, sample_db, clock, always, never, text, entries, text-AllStorable,
}

run_backup-IsBackedUp_example :
    let (out, after, stored) =
      run_backup tenths sample_env clock no_faults always 7 1
        (is_dir entries)
        full
        sample_db
        empty_store in
    (out ≡ returned)
    × IsBackedUp tenths sample_env sample_db after (entry_of (codes "a") text ∷ []) stored
unfolding get_job collect collect_dir
run_backup-IsBackedUp_example =
    run_backup-IsBackedUp tenths sample_env sample-IsZstd sample-IsCollisionFree clock always 7 1
      (is_dir entries) full (entry_of (codes "a") text ∷ []) sample_job sample_db empty_store refl
      (λ n. refl) refl empty-IsFaithful text-AllStorable

-- The commit of the alerts raises, with the snapshot committed before.
abbrev late : DbFaults
late = record {
  fails = λ stage. elim stage [
    | starting ↦ false
    | comparing ↦ false
    | persisting ↦ false
    | detecting ↦ false
    | alerting ↦ true
    | completing ↦ false
  ];
  handler_fails = false;
}

run_backup-IsSettled_example :
    let (out, after, stored) =
      run_backup tenths sample_env clock late always 7 1
        (is_dir entries)
        full
        sample_db
        empty_store in
    IsSettled tenths sample_env clock 7
      (is_dir entries)
      sample_db.backup_jobs
      (set_job 7 (to_running 100) sample_db.backup_jobs)
      sample_db
      out
      after
unfolding get_job
run_backup-IsSettled_example =
    run_backup-IsSettled tenths sample_env clock late always 7 1 (is_dir entries) full sample_job
      sample_db empty_store refl

-- The task asks for another attempt, which will add another snapshot.
late_retries :
    let (out, after, stored) =
      run_backup tenths sample_env clock late always 7 1 (is_dir []) full sample_db empty_store in
    (out ≡ retry database_error) × (length after.snapshots ≡ 1)
unfolding get_job collect collect_dir run_backup work start finish check fail detect persist
    store_chunks
late_retries = (refl, refl)

-- A file that cannot be read.
unreadable_retries :
    (run_backup tenths sample_env clock no_faults always 7 1
      (is_file text none)
      full
      sample_db
      empty_store).0
    ≡ retry (cas_error os_error)
unfolding get_job collect run_backup work fail start
unreadable_retries = refl

ok_injective : {x y : List ManifestEntry} → ok x ≡ ok y → x ≡ y
ok_injective p = cc p

text_storable : SourceStorable tenths sample_env (is_dir entries)
unfolding collect collect_dir
text_storable = λ manifest reads.
    subst (λ (m : List ManifestEntry). AllStorable tenths sample_env (all_chunks m))
      (ok_injective reads) text-AllStorable

-- The text is in the store, and no write of the backup succeeds.
abbrev text_store : CasStore
text_store = (store tenths sample_env written text (some 30) empty_store).1

retrieve-run_backup_example :
    let (out, after, stored) =
      run_backup tenths sample_env clock late never 7 1
        (is_dir entries)
        full
        sample_db
        text_store in
    (retrieve tenths sample_env (sample_sha256 text) stored ≡ ok text)
    × IsFaithful tenths sample_env stored
unfolding is_compressed entropy_of store store_new write_atomically retrieve decode lookup insert
    erase pair_beq payload_of bytes_beq sample_sha256
retrieve-run_backup_example =
    retrieve-run_backup tenths sample_env sample-IsZstd sample-IsCollisionFree clock late never 7 1
      (is_dir entries) full sample_db text_store text
      (store-IsFaithful tenths sample_env sample-IsZstd sample-IsCollisionFree written text
        (some 30) empty_store empty-IsFaithful (inl refl))
      text_storable refl
