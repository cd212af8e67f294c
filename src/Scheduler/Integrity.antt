-- ===== src/Scheduler/Integrity.antt =====
-- app/core/scheduler.py: `verify_snapshot_integrity`.
use backupos.Base.{
  ℕ, ◌+◌, ◌≡◌, ◌↔◌, refl, sym, ap, ◌∙◌, Bool, true, false, Option, none, some, List, [], ◌∷◌, ◌++◌,
  Bytes, bytes_eq, codes, nat_eq, ltb, ◌==◌, length, take, All, if◌then◌else◌, arith,
}
use backupos.Merkle.{root_hash, verify}
use backupos.Merkle.Collision.{IsDigest, IsCollisionFree}
use backupos.Merkle.Verify.{verify_exact}
use backupos.Models.{BackupSnapshot, SnapshotFile, Database}
use backupos.Backup.Alerts.{insert_desc}
use backupos.Restore.{files_of}
use backupos.Scheduler.Retention.{days}

abbrev pub passed : Bytes
passed = codes "passed"

abbrev pub failed_check : Bytes
failed_check = codes "failed"

-- `[h for sf in sf_records for h in sf.get_chunk_hashes()]`
abbrev pub manifest_hashes : List SnapshotFile → List Bytes
manifest_hashes [] = []
manifest_hashes (f ∷ files) = f.chunk_hashes ++ manifest_hashes files

-- `last_verified_at == None | last_verified_at < verify_cutoff`
abbrev pub is_due : ℕ → Option ℕ → Bool
is_due now none = true
is_due now (some verified) = ltb (verified + days 7) now

first : Option Bytes → ℕ
first none = 0
first (some []) = 0
first (some (c ∷ status)) = c

verdict_iff : (b : Bool) → (some (if b then passed else failed_check) ≡ some passed) ↔ (b ≡ true)
unfolding first
verdict_iff true = (λ e. refl, λ e. refl)
verdict_iff false = (
  λ e. absurd (let apart : 102 ≡ 112 = ap first e in omega (arith, apart)),
  λ e. absurd (let apart : ⊥ = ground arith in apart),
)

module _ {Float : Type 0} where
  -- The snapshots to verify, newest first.
  unfoldable pub due : ℕ → List (BackupSnapshot Float) → List (BackupSnapshot Float)
  due now [] = []
  due now (s ∷ snapshots) =
      let rest = due now snapshots in
      if is_due now s.last_verified_at then insert_desc s rest else rest

  -- The assignments to the columns of the snapshot with an id.
  unfoldable pub set_snapshot :
      ℕ
      → (BackupSnapshot Float → BackupSnapshot Float)
      → List (BackupSnapshot Float)
      → List (BackupSnapshot Float)
  set_snapshot snapshot_id change [] = []
  set_snapshot snapshot_id change (s ∷ snapshots) =
      let rest = set_snapshot snapshot_id change snapshots in
      (if s.id == snapshot_id then change s else s) ∷ rest

  module _ (sha256 : Bytes → Bytes) where
    -- The verdict on a snapshot with these manifests.
    unfoldable pub check_snapshot :
        ℕ → List SnapshotFile → BackupSnapshot Float → BackupSnapshot Float
    check_snapshot now [] s = s
    check_snapshot now (f ∷ files) s = record s {
      last_verified_at = some now;
      verification_status = some (
          if root_hash sha256 (manifest_hashes (f ∷ files)) == s.merkle_root
          then passed
          else failed_check);
    }

    unfoldable pub verify_loop : ℕ → List (BackupSnapshot Float) → Database Float → Database Float
    verify_loop now [] db = db
    verify_loop now (s ∷ snapshots) db = verify_loop now snapshots (record db {
      snapshots = set_snapshot s.id (check_snapshot now (files_of s.id db.files)) db.snapshots;
    })

    unfoldable pub verify_snapshot_integrity : ℕ → Database Float → Database Float
    verify_snapshot_integrity now db = verify_loop now (take 100 (due now db.snapshots)) db

    -- With a digest without collisions, the check of a snapshot passes exactly when the digests in
    -- its manifests are the list of as many digests that the root was computed from.
    pub check_snapshot_exact :
        (now : ℕ) (f : SnapshotFile) (files : List SnapshotFile) (s : BackupSnapshot Float)
        (original : List Bytes)
        → IsCollisionFree sha256
        → s.merkle_root ≡ root_hash sha256 original
        → All IsDigest (manifest_hashes (f ∷ files))
        → All IsDigest original
        → length (manifest_hashes (f ∷ files)) ≡ length original
        → ((check_snapshot now (f ∷ files) s).verification_status ≡ some passed)
          ↔ (manifest_hashes (f ∷ files) ≡ original)
    unfolding check_snapshot verify
    check_snapshot_exact now f files s original free root h k e =
        let hashes = manifest_hashes (f ∷ files) in
        let exact = verify_exact sha256 hashes original free h k e in
        let verdict = verdict_iff (root_hash sha256 hashes == s.merkle_root) in
        let at = ap (λ r. root_hash sha256 hashes == r) root in
        (λ p. exact.0 (sym at ∙ verdict.0 p), λ same. verdict.1 (at ∙ exact.1 same))
