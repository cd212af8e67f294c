-- ===== src/Catalog/Walk.antt =====
-- The walk of app/api/catalog.py, which goes from the oldest snapshot on, told from the newest on.
use backupos.Base.{
  ℕ, ◌≡◌, bytes_eq, refl, sym, ap, ◌∙◌, inl, inr, Option, none, some, List, [], ◌∷◌, ◌++◌, Bytes,
  bytes_eq, nat_eq, Option-cases,
}
use mathlib.Core.List.{reverse, reverse-append, reverse-cons}
use backupos.Base.Dict.{Dict, lookup}
use backupos.Models.{BackupSnapshot, SnapshotFile}
use backupos.Catalog.{FileVersion, is_changed, version_of, walk, versions}

module _ {Float : Type 0} (found : Dict ℕ SnapshotFile) where
  -- The record of the file in the first of some snapshots, if it is in that one.
  abbrev pub in_first : List (BackupSnapshot Float) → Option (List Bytes)
  in_first [] = none
  in_first (s ∷ older) = elim (lookup s.id found) [ none ↦ none | some sf ↦ some sf.chunk_hashes ]

  -- Each snapshot that has the file, newest first: the version is unchanged exactly when the next
  -- older snapshot has the file with the same digests.
  unfoldable pub compared : List (BackupSnapshot Float) → List FileVersion
  compared [] = []
  compared (s ∷ older) = elim (lookup s.id found) [
    | none ↦ compared older
    | some sf ↦ version_of found s sf (is_changed (in_first older) sf.chunk_hashes) ∷ compared older
  ]

  -- What the walk remembers of the last snapshot.
  remembered : List (BackupSnapshot Float) → Option (List Bytes) → Option (List Bytes)
  remembered [] prev = prev
  remembered (s ∷ snapshots) prev = remembered snapshots (in_first (s ∷ []))

  remembered-append :
      (xs : List (BackupSnapshot Float)) (prev : Option (List Bytes)) (s : BackupSnapshot Float)
      → remembered (xs ++ s ∷ []) prev ≡ in_first (s ∷ [])
  unfolding remembered
  remembered-append [] prev s = refl
  remembered-append (x ∷ xs) prev s = remembered-append xs (in_first (x ∷ [])) s

  walk-append :
      (xs : List (BackupSnapshot Float)) (prev : Option (List Bytes)) (s : BackupSnapshot Float)
      → walk found prev (xs ++ s ∷ [])
        ≡ walk found prev xs ++ walk found (remembered xs prev) (s ∷ [])
  unfolding walk remembered
  walk-append [] prev s = refl
  walk-append (x ∷ xs) prev s = elim (Option-cases (lookup x.id found)) [
    | inl gone ↦
        let held : in_first (x ∷ []) ≡ none = rw (gone, in_first) refl in
        rw (gone, walk)
          (walk-append xs none s
            ∙ ap (λ r. walk found none xs ++ walk found (remembered xs r) (s ∷ [])) (sym held))
    | inr (sf, there) ↦
        let hashes = some sf.chunk_hashes in
        let held : in_first (x ∷ []) ≡ hashes = rw (there, in_first) refl in
        rw (there, walk)
          (ap (λ vs. version_of found x sf (is_changed prev sf.chunk_hashes) ∷ vs)
            (walk-append xs hashes s
              ∙ ap (λ r. walk found hashes xs ++ walk found (remembered xs r) (s ∷ [])) (sym held)))
  ]

  remembered-reverse :
      (older : List (BackupSnapshot Float)) → remembered (reverse older) none ≡ in_first older
  unfolding remembered
  remembered-reverse [] = refl
  remembered-reverse (t ∷ older) =
      ap (λ ss. remembered ss none) (reverse-cons t older)
      ∙ remembered-append (reverse older) none t

  one-compared :
      (s : BackupSnapshot Float) (older : List (BackupSnapshot Float))
      → reverse (walk found (in_first older) (s ∷ [])) ++ compared older ≡ compared (s ∷ older)
  unfolding walk compared
  one-compared s older = elim (Option-cases (lookup s.id found)) [
    | inl gone ↦ rw (gone, walk, compared) refl
    | inr (sf, there) ↦ rw (there, walk, compared) refl
  ]

  pub versions-compared :
      (snapshots : List (BackupSnapshot Float)) → versions found snapshots ≡ compared snapshots
  unfolding versions
  versions-compared [] = unfold walk compared in refl
  versions-compared (s ∷ older) =
      ap (λ ss. reverse (walk found none ss)) (reverse-cons s older)
      ∙ ap reverse (walk-append (reverse older) none s)
      ∙ ap (λ prev. reverse (walk found none (reverse older) ++ walk found prev (s ∷ [])))
          (remembered-reverse older)
      ∙ reverse-append (walk found none (reverse older)) (walk found (in_first older) (s ∷ []))
      ∙ ap (λ vs. reverse (walk found (in_first older) (s ∷ [])) ++ vs) (versions-compared older)
      ∙ one-compared s older
