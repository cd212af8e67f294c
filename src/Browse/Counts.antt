-- ===== src/Browse/Counts.antt =====
-- What the loop over the files has counted.
use backupos.Base.{
  ℕ, ◌+◌, ◌≡◌, refl, ◌∙◌, inl, inr, Bool, true, false, Option, none, some, List, [], ◌∷◌, ◌++◌,
  Bytes, bytes_eq, bytes_beq, bytes_beq_iff, nat_eq, eqb, ◌==◌, Option-cases, arith, if◌then◌else◌,
}
use native.Mathlib.Nat.{add_assoc}
use backupos.Base.Dict.{lookup, lookup-insert}
use backupos.Models.{SnapshotFile}
use backupos.Browse.{
  slash, BrowseEntry, file, directory, is_empty, strip_prefix, first_part, Found, add_child,
  visit_rest, visit, visit_all,
}
use backupos.Browse.Paths.{
  starts_with, no_slash, starts_with-append, same-append, first_part-starts, first_part-of_name,
}

abbrev pub one_if : Bool → ℕ
one_if b = if b then 1 else 0

-- How many files have a path with a property.
unfoldable pub count_files : (Bytes → Bool) → List SnapshotFile → ℕ
count_files p [] = 0
count_files p (f ∷ files) = one_if (p f.file_path) + count_files p files

-- The directory with a name in a listing, with its `child_count`.
unfoldable pub find_dir : Bytes → List BrowseEntry → Option ℕ
find_dir name [] = none
find_dir name (e ∷ entries) = elim e.type [
  | file ↦ find_dir name entries
  | directory ↦ if e.name == name then some e.child_count else find_dir name entries
]

-- How many files with a name a listing has.
unfoldable pub count_named : Bytes → List BrowseEntry → ℕ
count_named name [] = 0
count_named name (e ∷ entries) =
    (elim e.type [ file ↦ one_if (bytes_beq e.name name) | directory ↦ 0 ])
    + count_named name entries

pub count_named-append :
    (name : Bytes) (xs ys : List BrowseEntry)
    → count_named name (xs ++ ys) ≡ count_named name xs + count_named name ys
unfolding count_named
count_named-append name [] ys = omega arith
count_named-append name (x ∷ xs) ys = omega (arith, count_named-append name xs ys)

abbrev pub at_least_one : ℕ → Option ℕ
at_least_one n = if eqb n 0 then none else some n

-- The file is below a directory, or is the file itself.
abbrev pub below : Bytes → Bytes → Bytes → Bool
below prefix name path = starts_with (prefix ++ (name ++ slash ∷ [])) path

abbrev pub at : Bytes → Bytes → Bytes → Bool
at prefix name path = bytes_beq path (prefix ++ name)

nil_ne : (name : Bytes) → is_empty name ≡ false → bytes_beq [] name ≡ false
unfolding bytes_beq
nil_ne [] h = cc
nil_ne (c ∷ name) h = refl

module _ (name : Bytes) (plain : no_slash name ≡ true) where
  add_child-dirs :
      (sf : SnapshotFile) (relative : Bytes) (found : Found) (m : ℕ)
      → lookup name found.dirs ≡ at_least_one m
      → lookup name (add_child sf relative found).dirs
        ≡ at_least_one (m + one_if (starts_with (name ++ slash ∷ []) relative))
  unfolding add_child
  add_child-dirs sf relative found m h = elim (Option-cases (first_part relative)) [
    | inl whole ↦ rw (first_part-starts name relative plain, whole, add_child) (ground (arith, h))
    | inr (part, cut) ↦
        rw (first_part-starts name relative plain, cut, add_child, lookup-insert)
          (ground (arith, h, bytes_beq_iff part name))
  ]

  add_child-files :
      (sf : SnapshotFile) (relative : Bytes) (found : Found)
      → count_named name (add_child sf relative found).file_entries
        ≡ count_named name found.file_entries + one_if (bytes_beq relative name)
  unfolding add_child count_named
  add_child-files sf relative found = elim (Option-cases (first_part relative)) [
    | inl whole ↦ rw (whole, add_child) (count_named-append name found.file_entries _ ∙ omega arith)
    | inr (part, cut) ↦
        rw (cut, add_child, first_part-of_name name relative part plain cut) (omega arith)
  ]

  visit_rest-dirs :
      (sf : SnapshotFile) (o : Option Bytes) (found : Found) (m : ℕ)
      → lookup name found.dirs ≡ at_least_one m
      → lookup name (visit_rest sf o found).dirs
        ≡ at_least_one
            (m + one_if (elim o [ none ↦ false | some r ↦ starts_with (name ++ slash ∷ []) r ]))
  unfolding visit_rest first_part
  visit_rest-dirs sf none found m h = ground (arith, h)
  visit_rest-dirs sf (some []) found m h = rw (first_part-starts name [] plain) (ground (arith, h))
  visit_rest-dirs sf (some (c ∷ relative)) found m h = add_child-dirs sf (c ∷ relative) found m h

  pub visit_all-dirs :
      (prefix : Bytes) (files : List SnapshotFile) (found : Found) (m : ℕ)
      → lookup name found.dirs ≡ at_least_one m
      → lookup name (visit_all prefix files found).dirs
        ≡ at_least_one (m + count_files (below prefix name) files)
  unfolding visit_all visit count_files
  visit_all-dirs prefix [] found m h = ground (arith, h)
  visit_all-dirs prefix (sf ∷ files) found m h =
      let rest = strip_prefix prefix sf.file_path in
      let told = starts_with-append prefix (name ++ slash ∷ []) sf.file_path in
      rw (told, ← add_assoc) (visit_all-dirs prefix files _ _ (visit_rest-dirs sf rest found m h))

  visit_rest-files :
      (sf : SnapshotFile) (o : Option Bytes) (found : Found)
      → is_empty name ≡ false
      → count_named name (visit_rest sf o found).file_entries
        ≡ count_named name found.file_entries
          + one_if (elim o [ none ↦ false | some r ↦ bytes_beq r name ])
  unfolding visit_rest bytes_beq
  visit_rest-files sf none found some_name = omega arith
  visit_rest-files sf (some []) found some_name = rw (nil_ne name some_name) (omega arith)
  visit_rest-files sf (some (c ∷ relative)) found some_name =
      add_child-files sf (c ∷ relative) found

  pub visit_all-files :
      (prefix : Bytes) (files : List SnapshotFile) (found : Found)
      → is_empty name ≡ false
      → count_named name (visit_all prefix files found).file_entries
        ≡ count_named name found.file_entries + count_files (at prefix name) files
  unfolding visit_all visit count_files
  visit_all-files prefix [] found some_name = omega arith
  visit_all-files prefix (sf ∷ files) found some_name =
      let rest = strip_prefix prefix sf.file_path in
      rw (same-append prefix name sf.file_path) (
        omega (
          arith,
          visit_all-files prefix files (visit_rest sf rest found) some_name,
          visit_rest-files sf rest found some_name,
        ))
