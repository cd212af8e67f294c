-- ===== src/Catalog/History.antt =====
-- The versions of a file, told snapshot by snapshot.
use backupos.Base.{
  ℕ, ◌≡◌, ◌↔◌, bytes_beq_iff, bytes_eq, false, true, arith, refl, sym, ap, ◌∙◌, inl, inr, Option,
  none, some, List, [], ◌∷◌, Bytes, nat_eq, take, length, Option-cases, All, contains,
}
use mathlib.Core.List.{Perm}
use backupos.Base.Dict.{Dict, lookup}
use backupos.Models.{BackupSnapshot, SnapshotFile, Database}
use backupos.Http.{answer}
use backupos.Backup.Alerts.{by_newest}
use backupos.Snapshots.{DataSource, owns}
use backupos.Catalog.{FileVersion, ids_of, hashes_beq, file_map, is_changed, file_version_history}
use backupos.Catalog.Records.{last_record, or_else-none, lookup-file_map}
use backupos.Catalog.Walk.{in_first, compared, versions-compared}
use backupos.Catalog.Newest.{IsNewestFirst, of_source, by_newest-IsNewestFirst, by_newest-perm}

hashes_beq_iff : (xs ys : List Bytes) → (hashes_beq xs ys ≡ true) ↔ (xs ≡ ys)
unfolding hashes_beq
hashes_beq_iff [] [] = ground arith
hashes_beq_iff [] (y ∷ ys) = ground arith
hashes_beq_iff (x ∷ xs) [] = ground arith
hashes_beq_iff (x ∷ xs) (y ∷ ys) = ground (arith, bytes_beq_iff x y, hashes_beq_iff xs ys)

unchanged_iff : (xs ys : List Bytes) → (is_changed (some ys) xs ≡ false) ↔ (xs ≡ ys)
unchanged_iff xs ys = ground (arith, hashes_beq_iff xs ys)

-- Which record of a file each snapshot has, and the versions that these make.
module _ {Float : Type 0} (record_of : ℕ → Option SnapshotFile) where
  -- The first of some snapshots has the file with these digests.
  abbrev pub IsSame : List (BackupSnapshot Float) → List Bytes → Type 0
  IsSame [] hashes = ⊥
  IsSame (s ∷ older) hashes =
      (sf : SnapshotFile) × (record_of s.id ≡ some sf) × (hashes ≡ sf.chunk_hashes)

  pub record IsVersion (s : BackupSnapshot Float) (sf : SnapshotFile)
      (older : List (BackupSnapshot Float)) (v : FileVersion) : Type 0 where
    pub id : v.snapshot_id ≡ s.id
    pub time : v.snapshot_created_at ≡ s.created_at
    pub size : v.file_size ≡ sf.file_size
    pub chunks : v.chunk_count ≡ length sf.chunk_hashes
    pub unchanged : (v.changed ≡ false) ↔ IsSame older sf.chunk_hashes

  -- A version for each snapshot with a record, and none for the others.
  pub data Told : List (BackupSnapshot Float) → List FileVersion → Type 0 where
    told_all : Told [] []
    told_none :
        (s : BackupSnapshot Float) (older : List (BackupSnapshot Float)) (vs : List FileVersion)
        → record_of s.id ≡ none
        → Told older vs
        → Told (s ∷ older) vs
    told_one :
        (s : BackupSnapshot Float) (older : List (BackupSnapshot Float)) (sf : SnapshotFile)
        (v : FileVersion) (vs : List FileVersion)
        → record_of s.id ≡ some sf
        → IsVersion s sf older v
        → Told older vs
        → Told (s ∷ older) (v ∷ vs)

  module _ (found : Dict ℕ SnapshotFile) where
    abbrev HasRecords : List (BackupSnapshot Float) → Type 0
    HasRecords = All (λ (s : BackupSnapshot Float). lookup s.id found ≡ record_of s.id)

    changed_iff :
        (older : List (BackupSnapshot Float)) (hashes : List Bytes)
        → HasRecords older
        → (is_changed (in_first found older) hashes ≡ false) ↔ IsSame older hashes
    changed_iff [] hashes h = (λ e. cc e, λ x. absurd x)
    changed_iff (s ∷ older) hashes h = elim (Option-cases (lookup s.id found)) [
      | inl gone ↦
          let none_held : in_first found (s ∷ older) ≡ none = rw (gone, in_first) refl in
          rw none_held (λ e. cc e, λ (sf, held, same). cc (held, gone, h.0))
      | inr (sf, there) ↦
          let held_first : in_first found (s ∷ older) ≡ some sf.chunk_hashes =
            rw (there, in_first) refl in
          rw held_first (
            λ e. (sf, sym h.0 ∙ there, (unchanged_iff hashes sf.chunk_hashes).0 e),
            λ (other, held, same).
                (unchanged_iff hashes sf.chunk_hashes).1 (cc (held, there, h.0, same)),
          )
    ]

    compared-Told :
        (snapshots : List (BackupSnapshot Float))
        → HasRecords snapshots
        → Told snapshots (compared found snapshots)
    unfolding compared
    compared-Told [] h = told_all
    compared-Told (s ∷ older) h = elim (Option-cases (lookup s.id found)) [
      | inl gone ↦
          rw (gone, compared) (told_none s older _ (sym h.0 ∙ gone) (compared-Told older h.1))
      | inr (sf, there) ↦
          rw (there, compared)
            (told_one s older sf _ _ (sym h.0 ∙ there)
              (record {
                id = refl;
                time = refl;
                size = refl;
                chunks = refl;
                unchanged = changed_iff older sf.chunk_hashes h.1;
              })
              (compared-Told older h.1))
    ]

module _ {Float : Type 0} (path : Bytes) (files : List SnapshotFile) where
  -- Among more ids than those of the snapshots.
  found_among :
      (ids : List ℕ) (snapshots : List (BackupSnapshot Float))
      → ((n : ℕ) → contains (ids_of snapshots) n ≡ true → contains ids n ≡ true)
      → HasRecords (last_record path files) (file_map ids path files []) snapshots
  unfolding lookup
  found_among ids [] more = tt
  found_among ids (s ∷ older) more = (
    lookup-file_map ids path files [] s.id (more s.id (ground arith)) ∙ or_else-none _,
    found_among ids older (λ n h. more n (ground (arith, h))),
  )

-- The history of a file for the tenant of a source: the newest `limit` snapshots of the source are
-- gone through from the newest on. A snapshot with a record of the file gives a version with its
-- id and time, and with the size and the number of chunks of the last such record; the version is
-- unchanged exactly when the next older of these snapshots has the file with the same list of
-- digests. Other snapshots give none.
pub history_exact :
    {Float : Type 0} (tenant_id source_id limit : ℕ) (sources : List DataSource) (path : Bytes)
    (db : Database Float)
    → owns tenant_id source_id sources ≡ true
    → (newest : List (BackupSnapshot Float)) × (vs : List FileVersion) × Perm newest
        (of_source source_id db.snapshots)
      × IsNewestFirst newest
      × (file_version_history tenant_id sources source_id path limit db ≡ answer vs)
      × Told (last_record path db.files) (take limit newest) vs
unfolding file_version_history
history_exact tenant_id source_id limit sources path db mine =
    let newest = by_newest source_id db.snapshots in
    let snapshots = take limit newest in
    let found = file_map (ids_of snapshots) path db.files [] in
    (
      newest,
      compared found snapshots,
      by_newest-perm source_id db.snapshots,
      by_newest-IsNewestFirst source_id db.snapshots,
      rw mine (ap answer (versions-compared found snapshots)),
      compared-Told (last_record path db.files) found snapshots
          (found_among path db.files (ids_of snapshots) snapshots (λ n h. h)),
    )
