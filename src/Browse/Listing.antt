-- ===== src/Browse/Listing.antt =====
-- What a listing says of the files of the snapshot.
use backupos.Base.{
  ℕ, ◌+◌, ◌≡◌, refl, ap, ◌∙◌, inl, inr, true, false, Option, none, some, List, [], ◌∷◌, ◌++◌, Bytes,
  bytes_eq, bytes_beq_iff, nat_eq, ◌==◌, Bool-cases, Option-cases, arith, All, All-append,
  if◌then◌else◌,
}
use backupos.Base.Dict.{Dict, lookup}
use backupos.Models.{SnapshotFile}
use backupos.Browse.{
  BrowseEntry, file, normalise, prefix_of, is_empty, strip_prefix, first_part, Found, add_child,
  visit_rest, visit, visit_all, before, insert_dir, sort_dirs, dir_entries, insert_entry,
  sort_entries, build_listing,
}
use backupos.Browse.Counts.{
  count_files, find_dir, count_named, count_named-append, at_least_one, below, at, visit_all-dirs,
  visit_all-files,
}
use backupos.Browse.Paths.{no_slash, before_irreflexive}

lookup-insert_dir :
    (name k : Bytes) (n : ℕ) (dirs : Dict Bytes ℕ)
    → lookup name (insert_dir k n dirs) ≡ (if k == name then some n else lookup name dirs)
unfolding lookup insert_dir
lookup-insert_dir name k n [] = refl
lookup-insert_dir name k n ((j, m) ∷ dirs) = ground (
  arith,
  lookup-insert_dir name k n dirs,
  bytes_beq_iff j name,
  bytes_beq_iff k name,
  before_irreflexive name,
)

lookup-sort_dirs :
    (name : Bytes) (dirs : Dict Bytes ℕ) → lookup name (sort_dirs dirs) ≡ lookup name dirs
unfolding lookup sort_dirs
lookup-sort_dirs name [] = refl
lookup-sort_dirs name ((k, n) ∷ dirs) =
    lookup-insert_dir name k n (sort_dirs dirs)
    ∙ ap (λ o. if k == name then some n else o) (lookup-sort_dirs name dirs)

count_named-insert_entry :
    (name : Bytes) (e : BrowseEntry) (entries : List BrowseEntry)
    → count_named name (insert_entry e entries) ≡ count_named name (e ∷ entries)
unfolding count_named insert_entry
count_named-insert_entry name e [] = refl
count_named-insert_entry name e (f ∷ entries) =
    ground (arith, count_named-insert_entry name e entries)

count_named-sort :
    (name : Bytes) (entries : List BrowseEntry)
    → count_named name (sort_entries entries) ≡ count_named name entries
unfolding count_named sort_entries
count_named-sort name [] = refl
count_named-sort name (e ∷ entries) =
    omega
      (arith, count_named-insert_entry name e (sort_entries entries), count_named-sort name entries)

find_dir-files :
    (name : Bytes) (entries : List BrowseEntry)
    → All (λ (e : BrowseEntry). e.type ≡ file) entries
    → find_dir name entries ≡ none
unfolding find_dir
find_dir-files name [] h = refl
find_dir-files name (e ∷ entries) h = rw (h.0) (find_dir-files name entries h.1)

find_dir-entries :
    (name prefix : Bytes) (dirs : Dict Bytes ℕ) (entries : List BrowseEntry)
    → find_dir name entries ≡ none
    → find_dir name (dir_entries prefix dirs ++ entries) ≡ lookup name dirs
unfolding find_dir dir_entries lookup
find_dir-entries name prefix [] entries h = h
find_dir-entries name prefix ((k, n) ∷ dirs) entries h =
    ap (λ o. if k == name then some n else o) (find_dir-entries name prefix dirs entries h)

count_named-entries :
    (name prefix : Bytes) (dirs : Dict Bytes ℕ) → count_named name (dir_entries prefix dirs) ≡ 0
unfolding count_named dir_entries
count_named-entries name prefix [] = refl
count_named-entries name prefix ((k, n) ∷ dirs) =
    omega (arith, count_named-entries name prefix dirs)

-- Only files are collected as files.
abbrev AllFiles : List BrowseEntry → Type 0
AllFiles entries = All (λ (e : BrowseEntry). e.type ≡ file) entries

visit-AllFiles :
    (sf : SnapshotFile) (o : Option Bytes) (found : Found)
    → AllFiles found.file_entries
    → AllFiles (visit_rest sf o found).file_entries
unfolding visit_rest add_child
visit-AllFiles sf none found h = h
visit-AllFiles sf (some []) found h = h
visit-AllFiles sf (some (c ∷ relative)) found h = elim (Option-cases (first_part (c ∷ relative))) [
  | inl whole ↦ rw (whole, add_child) (All-append _ found.file_entries _ h (refl, tt))
  | inr (part, cut) ↦ rw (cut, add_child) h
]

visit_all-AllFiles :
    (prefix : Bytes) (files : List SnapshotFile) (found : Found)
    → AllFiles found.file_entries
    → AllFiles (visit_all prefix files found).file_entries
unfolding visit_all visit
visit_all-AllFiles prefix [] found h = h
visit_all-AllFiles prefix (sf ∷ files) found h =
    visit_all-AllFiles prefix files _ (visit-AllFiles sf (strip_prefix prefix sf.file_path) found h)

insert_entry-AllFiles :
    (e : BrowseEntry) (entries : List BrowseEntry)
    → e.type ≡ file
    → AllFiles entries
    → AllFiles (insert_entry e entries)
unfolding insert_entry
insert_entry-AllFiles e [] h k = (h, tt)
insert_entry-AllFiles e (f ∷ entries) h k = elim (Bool-cases (before f.name e.name)) [
  | inl first ↦ rw first (k.0, insert_entry-AllFiles e entries h k.1)
  | inr last ↦ rw last (h, k)
]

sort-AllFiles : (entries : List BrowseEntry) → AllFiles entries → AllFiles (sort_entries entries)
unfolding sort_entries
sort-AllFiles [] h = tt
sort-AllFiles (e ∷ entries) h = insert_entry-AllFiles e _ h.0 (sort-AllFiles entries h.1)

-- The listing of a directory is exact. For each name that is not empty and without a slash it has
-- a directory exactly when a file of the snapshot lies below that directory, with the number of
-- such files as its `child_count`; and it has as many files with the name as the snapshot has at
-- that path.
pub build_listing_exact :
    (files : List SnapshotFile) (path name : Bytes)
    → no_slash name ≡ true
    → is_empty name ≡ false
    → let prefix = prefix_of (normalise path) in
      (find_dir name (build_listing files path)
        ≡ at_least_one (count_files (below prefix name) files))
      × (count_named name (build_listing files path) ≡ count_files (at prefix name) files)
unfolding build_listing count_named
build_listing_exact files path name plain some_name =
    let prefix = prefix_of (normalise path) in
    let start : Found = record { dirs = []; file_entries = [] } in
    let found = visit_all prefix files start in
    let sorted = sort_entries found.file_entries in
    let no_more : 0 + count_files (below prefix name) files
        ≡ count_files (below prefix name) files =
      omega arith in
    (
      find_dir-entries name prefix (sort_dirs found.dirs) sorted (
            find_dir-files name sorted
              (sort-AllFiles found.file_entries (visit_all-AllFiles prefix files start tt)))
          ∙ lookup-sort_dirs name found.dirs
          ∙ visit_all-dirs name plain prefix files start 0 (unfold lookup in refl)
          ∙ ap at_least_one no_more,
      omega (
        arith,
        count_named-append name (dir_entries prefix (sort_dirs found.dirs)) sorted,
        count_named-entries name prefix (sort_dirs found.dirs),
        count_named-sort name found.file_entries,
        visit_all-files name plain prefix files start some_name,
      ),
    )
