-- ===== src/Browse.antt =====
-- app/api/browse.py: the listing of a directory of a snapshot. Names are compared by the bytes of
-- their UTF-8 encoding, whose order is that of the code points.

pub mod Paths
pub mod Counts
pub mod Listing
mod Tests
use backupos.Base.{
  ℕ, ◌+◌, Bool, true, false, ◌&&◌, Option, none, some, List, [], ◌∷◌, ◌++◌, Bytes, bytes_eq, nat_eq,
  ltb, ◌==◌, length, if◌then◌else◌,
}
use backupos.Base.Dict.{Dict, lookup, insert}
use backupos.Models.{BackupSnapshot, SnapshotFile, Database}
use backupos.Http.{Response, answer, failed_with, not_found}
use backupos.Restore.{files_of}
use backupos.Snapshots.{DataSource}
use backupos.Queries.{find_snapshot, if_owned, or_not_found}

-- The byte of `/`.
abbrev pub slash : ℕ
slash = 47

pub data EntryType : Type 0 where
  file directory : EntryType

pub record BrowseEntry : Type 0 where
  pub name : Bytes
  pub type : EntryType
  pub size : ℕ
  pub chunk_count : ℕ
  pub child_count : ℕ
  pub full_path : Bytes

pub record BrowseResponse : Type 0 where
  pub path : Bytes
  pub snapshot_id : ℕ
  pub source_id : ℕ
  pub total_entries : ℕ
  pub entries : List BrowseEntry

-- `path.strip("/")`
unfoldable pub strip_left : Bytes → Bytes
strip_left [] = []
strip_left (c ∷ cs) = let rest = strip_left cs in if c == slash then rest else c ∷ cs

abbrev pub is_empty : Bytes → Bool
is_empty [] = true
is_empty (c ∷ cs) = false

unfoldable pub strip_right : Bytes → Bytes
strip_right [] = []
strip_right (c ∷ cs) =
    let rest = strip_right cs in if c == slash && is_empty rest then [] else c ∷ rest

-- `_normalise`
unfoldable pub normalise : Bytes → Bytes
normalise path = slash ∷ strip_right (strip_left path)

-- `browse_path if browse_path == "/" else browse_path + "/"`
unfoldable pub prefix_of : Bytes → Bytes
prefix_of browse_path =
    if browse_path == (slash ∷ []) then browse_path else browse_path ++ slash ∷ []

-- `fp[len(prefix):]` where `fp.startswith(prefix)`
unfoldable pub strip_prefix : Bytes → Bytes → Option Bytes
strip_prefix [] fp = some fp
strip_prefix (c ∷ prefix) [] = none
strip_prefix (c ∷ prefix) (d ∷ fp) =
    let rest = strip_prefix prefix fp in if c == d then rest else none

-- `relative[:slash_pos]`, where there is a slash.
unfoldable pub first_part : Bytes → Option Bytes
first_part [] = none
first_part (c ∷ relative) =
    let rest = first_part relative in
    if c == slash then some [] else elim rest [ none ↦ none | some part ↦ some (c ∷ part) ]

-- `dirs.get(dir_name, 0)`
abbrev pub get_count : Bytes → Dict Bytes ℕ → ℕ
get_count name dirs = elim (lookup name dirs) [ none ↦ 0 | some n ↦ n ]

-- `dirs` and `file_entries`
pub record Found : Type 0 where
  pub dirs : Dict Bytes ℕ
  pub file_entries : List BrowseEntry

unfoldable pub add_child : SnapshotFile → Bytes → Found → Found
add_child sf relative found = elim (first_part relative) [
  | none ↦ record found {
    file_entries =
        found.file_entries
        ++ record {
          name = relative;
          type = file;
          size = sf.file_size;
          chunk_count = length sf.chunk_hashes;
          child_count = 0;
          full_path = sf.file_path;
        }
          ∷ [];
  }
  | some dir_name ↦ record found {
    dirs = insert dir_name (get_count dir_name found.dirs + 1) found.dirs;
  }
]

-- The body of the loop, with its two `continue`s: for a path without the prefix, and for the
-- prefix alone.
unfoldable pub visit_rest : SnapshotFile → Option Bytes → Found → Found
visit_rest sf none found = found
visit_rest sf (some []) found = found
visit_rest sf (some (c ∷ relative)) found = add_child sf (c ∷ relative) found

unfoldable pub visit : Bytes → SnapshotFile → Found → Found
visit prefix sf found = visit_rest sf (strip_prefix prefix sf.file_path) found

unfoldable pub visit_all : Bytes → List SnapshotFile → Found → Found
visit_all prefix [] found = found
visit_all prefix (sf ∷ files) found = visit_all prefix files (visit prefix sf found)

-- `<` on strings
unfoldable pub before : Bytes → Bytes → Bool
before a [] = false
before [] (d ∷ b) = true
before (c ∷ a) (d ∷ b) =
    let rest = before a b in if ltb c d then true else if c == d then rest else false

-- `sorted(dirs.items())`, whose keys differ.
unfoldable pub insert_dir : Bytes → ℕ → Dict Bytes ℕ → Dict Bytes ℕ
insert_dir name n [] = (name, n) ∷ []
insert_dir name n ((k, m) ∷ dirs) =
    let rest = insert_dir name n dirs in
    if before k name then (k, m) ∷ rest else (name, n) ∷ (k, m) ∷ dirs

unfoldable pub sort_dirs : Dict Bytes ℕ → Dict Bytes ℕ
sort_dirs [] = []
sort_dirs ((name, n) ∷ dirs) = insert_dir name n (sort_dirs dirs)

unfoldable pub dir_entries : Bytes → Dict Bytes ℕ → List BrowseEntry
dir_entries prefix [] = []
dir_entries prefix ((name, count) ∷ dirs) =
    record {
      name = name;
      type = directory;
      size = 0;
      chunk_count = 0;
      child_count = count;
      full_path = normalise (prefix ++ name);
    }
    ∷ dir_entries prefix dirs

-- `file_entries.sort(key=lambda e: e.name)`, which is stable.
unfoldable pub insert_entry : BrowseEntry → List BrowseEntry → List BrowseEntry
insert_entry e [] = e ∷ []
insert_entry e (f ∷ entries) =
    let rest = insert_entry e entries in if before f.name e.name then f ∷ rest else e ∷ f ∷ entries

unfoldable pub sort_entries : List BrowseEntry → List BrowseEntry
sort_entries [] = []
sort_entries (e ∷ entries) = insert_entry e (sort_entries entries)

-- `_build_listing`
unfoldable pub build_listing : List SnapshotFile → Bytes → List BrowseEntry
build_listing files browse_path =
    let prefix = prefix_of (normalise browse_path) in
    let found = visit_all prefix files (record { dirs = []; file_entries = [] }) in
    dir_entries prefix (sort_dirs found.dirs) ++ sort_entries found.file_entries

unfoldable pub listing_of : ℕ → ℕ → Bytes → List SnapshotFile → Response BrowseResponse
listing_of source_id snapshot_id path [] = failed_with not_found
listing_of source_id snapshot_id path (f ∷ files) =
    let entries = build_listing (f ∷ files) path in
    answer (record {
      path = normalise path;
      snapshot_id = snapshot_id;
      source_id = source_id;
      total_entries = length entries;
      entries = entries;
    })

unfoldable pub browse_snapshot :
    {Float : Type 0}
    → ℕ
    → List DataSource
    → ℕ
    → ℕ
    → Bytes
    → Database Float
    → Response BrowseResponse
browse_snapshot {Float} tenant_id sources source_id snapshot_id path db =
    if_owned tenant_id source_id sources (
      or_not_found (find_snapshot snapshot_id source_id db.snapshots) λ (s : BackupSnapshot Float).
        listing_of source_id snapshot_id path (files_of snapshot_id db.files))
