-- ===== src/Browse/Tests.antt =====
-- A directory with two files below another, and one beside it.
use backupos.Base.{ℕ, ◌≡◌, refl, List, [], ◌∷◌, Bytes, bytes_beq, codes}
use backupos.Base.Dict.{lookup, insert}
use backupos.Models.{SnapshotFile}
use backupos.Browse.{
  normalise, strip_left, strip_right, prefix_of, strip_prefix, first_part, add_child, visit_rest,
  visit, visit_all, before, insert_dir, sort_dirs, dir_entries, insert_entry, sort_entries,
  build_listing, BrowseEntry, file, directory,
}
use backupos.Browse.Paths.{no_slash}
use backupos.Browse.Counts.{count_files, find_dir, count_named, at_least_one, below, at}
use backupos.Browse.Listing.{build_listing_exact}

abbrev stored : Bytes → SnapshotFile
stored path = record { snapshot_id = 4; file_path = path; file_size = 2; chunk_hashes = [] }

abbrev tree : List SnapshotFile
tree =
    stored (codes "/var/b")
    ∷ stored (codes "/var/www/x")
    ∷ stored (codes "/var/www/y/z")
    ∷ stored (codes "/variety")
    ∷ []

abbrev entry : Bytes → ℕ → Bytes → BrowseEntry
entry name n path = record {
  name = name;
  type = directory;
  size = 0;
  chunk_count = 0;
  child_count = n;
  full_path = path;
}

var_listed :
    build_listing tree (codes "var/")
    ≡ entry (codes "www") 2 (codes "/var/www")
      ∷ record {
        name = codes "b";
        type = file;
        size = 2;
        chunk_count = 0;
        child_count = 0;
        full_path = codes "/var/b";
      }
      ∷ []
unfolding build_listing normalise strip_left strip_right prefix_of strip_prefix first_part add_child
    visit_rest visit visit_all before insert_dir sort_dirs dir_entries insert_entry sort_entries
    lookup insert bytes_beq
var_listed = refl

abbrev www : Bytes
www = codes "www"

build_listing_exact_example :
    let prefix = prefix_of (normalise (codes "/var")) in
    (find_dir www (build_listing tree (codes "/var"))
      ≡ at_least_one (count_files (below prefix www) tree))
    × (count_named www (build_listing tree (codes "/var")) ≡ count_files (at prefix www) tree)
unfolding no_slash
build_listing_exact_example = build_listing_exact tree (codes "/var") www refl refl
