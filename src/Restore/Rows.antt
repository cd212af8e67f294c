-- ===== src/Restore/Rows.antt =====
-- What the queries of `run_restore` find of a snapshot that was just added.
use backupos.Base.{ℕ, ◌<◌, ◌≡◌, refl, some, List, [], ◌∷◌, ◌++◌, Bytes, nat_eq, arith, All}
use backupos.Models.{BackupSnapshot, SnapshotFile, RestoreJob}
use backupos.Backup.{ManifestEntry}
use backupos.Backup.Manifest.{sealed}
use backupos.Restore.{get_snapshot, files_of, get_restore, set_restore}

pub get_snapshot-append :
    {Float : Type 0} (n : ℕ) (snapshots : List (BackupSnapshot Float)) (s : BackupSnapshot Float)
    → All (λ (t : BackupSnapshot Float). t.id < n) snapshots
    → s.id ≡ n
    → get_snapshot n (snapshots ++ s ∷ []) ≡ some s
unfolding get_snapshot
get_snapshot-append n [] s h e = ground arith
get_snapshot-append n (t ∷ snapshots) s h e = ground (arith, get_snapshot-append n snapshots s h.1)

pub files_of-append :
    (n : ℕ) (old new : List SnapshotFile)
    → All (λ (f : SnapshotFile). f.snapshot_id < n) old
    → files_of n (old ++ new) ≡ files_of n new
unfolding files_of
files_of-append n [] new h = refl
files_of-append n (f ∷ old) new h = ground (arith, files_of-append n old new h.1)

pub files_of-sealed :
    (sha256 : Bytes → Bytes) (n : ℕ) (manifest : List ManifestEntry)
    → files_of n (sealed sha256 n manifest) ≡ sealed sha256 n manifest
unfolding files_of sealed
files_of-sealed sha256 n [] = refl
files_of-sealed sha256 n (e ∷ manifest) = ground (arith, files_of-sealed sha256 n manifest)

pub get_restore-set_restore :
    (n : ℕ) (change : RestoreJob → RestoreJob) (jobs : List RestoreJob) (job : RestoreJob)
    → get_restore n jobs ≡ some job
    → (change job).id ≡ n
    → get_restore n (set_restore n change jobs) ≡ some (change job)
unfolding get_restore set_restore
get_restore-set_restore n change [] job e k = absurd (cc e)
get_restore-set_restore n change (j ∷ jobs) job e k =
    ground (arith, get_restore-set_restore n change jobs job)

pub get_restore-id :
    (n : ℕ) (jobs : List RestoreJob) (job : RestoreJob) → get_restore n jobs ≡ some job → job.id ≡ n
unfolding get_restore
get_restore-id n [] job e = absurd (cc e)
get_restore-id n (j ∷ jobs) job e = ground (arith, get_restore-id n jobs job)
