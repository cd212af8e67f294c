-- ===== src/Catalog/Records.antt =====
-- The record that `file_map` of app/api/catalog.py keeps for a snapshot.
use backupos.Base.{
  ℕ, ◌≡◌, refl, true, ◌&&◌, Option, none, some, List, [], ◌∷◌, Bytes, bytes_eq, nat_eq, ◌==◌,
  contains, arith, if◌then◌else◌,
}
use backupos.Base.Dict.{Dict, lookup, insert, lookup-insert}
use backupos.Models.{SnapshotFile}
use backupos.Catalog.{file_map}

-- The last record of a file in a snapshot.
abbrev pub last_record : Bytes → List SnapshotFile → ℕ → Option SnapshotFile
last_record path [] id = none
last_record path (sf ∷ files) id = elim (last_record path files id) [
  | some later ↦ some later
  | none ↦ if sf.snapshot_id == id && sf.file_path == path then some sf else none
]

abbrev pub or_else : Option SnapshotFile → Option SnapshotFile → Option SnapshotFile
or_else none b = b
or_else (some a) b = some a

pub or_else-none : (a : Option SnapshotFile) → or_else a none ≡ a
or_else-none none = refl
or_else-none (some a) = refl

pub lookup-file_map :
    (ids : List ℕ) (path : Bytes) (files : List SnapshotFile) (found : Dict ℕ SnapshotFile) (id : ℕ)
    → contains ids id ≡ true
    → lookup id (file_map ids path files found)
      ≡ or_else (last_record path files id) (lookup id found)
unfolding file_map
lookup-file_map ids path [] found id h = refl
lookup-file_map ids path (sf ∷ files) found id h =
    let kept = contains ids sf.snapshot_id && sf.file_path == path in
    ground (
      arith,
      lookup-file_map ids path files (if kept then insert sf.snapshot_id sf found else found) id h,
      lookup-insert sf.snapshot_id id sf found,
      h,
    )
