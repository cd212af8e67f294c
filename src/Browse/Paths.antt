-- ===== src/Browse/Paths.antt =====
-- What the text functions of the browser say of a path.
use backupos.Base.{
  ◌≡◌, refl, inl, inr, Bool, true, false, not, ◌&&◌, none, some, [], ◌∷◌, ◌++◌, Bytes, bytes_eq,
  bytes_beq, nat_eq, ◌==◌, Bool-cases, Option-cases, arith,
}
use backupos.Browse.{slash, strip_prefix, first_part, before}

-- `fp.startswith(prefix)`, told without cutting it.
unfoldable pub starts_with : Bytes → Bytes → Bool
starts_with [] fp = true
starts_with (c ∷ prefix) [] = false
starts_with (c ∷ prefix) (d ∷ fp) = c == d && starts_with prefix fp

-- A name between two slashes.
unfoldable pub no_slash : Bytes → Bool
no_slash [] = true
no_slash (c ∷ name) = not (c == slash) && no_slash name

pub starts_with-append :
    (prefix q fp : Bytes)
    → starts_with (prefix ++ q) fp
      ≡ (elim (strip_prefix prefix fp) [ none ↦ false | some rest ↦ starts_with q rest ])
unfolding starts_with strip_prefix
starts_with-append [] q fp = refl
starts_with-append (c ∷ prefix) q [] = refl
starts_with-append (c ∷ prefix) q (d ∷ fp) = elim (Bool-cases (c == d)) [
  | inl e ↦ rw e (starts_with-append prefix q fp)
  | inr e ↦ rw e refl
]

-- A path is the prefix and a name exactly when the name is left of it.
pub same-append :
    (prefix q fp : Bytes)
    → bytes_beq fp (prefix ++ q)
      ≡ (elim (strip_prefix prefix fp) [ none ↦ false | some rest ↦ bytes_beq rest q ])
unfolding strip_prefix bytes_beq
same-append [] q fp = refl
same-append (c ∷ prefix) q [] = refl
same-append (c ∷ prefix) q (d ∷ fp) = elim (Bool-cases (c == d)) [
  | inl e ↦ rw e (ground (arith, e, same-append prefix q fp))
  | inr e ↦ rw e (ground (arith, e))
]

pub first_part-starts :
    (name relative : Bytes)
    → no_slash name ≡ true
    → starts_with (name ++ slash ∷ []) relative
      ≡ (elim (first_part relative) [ none ↦ false | some part ↦ bytes_beq part name ])
unfolding starts_with no_slash first_part bytes_beq
first_part-starts [] [] h = refl
first_part-starts (c ∷ name) [] h = refl
first_part-starts [] (d ∷ relative) h = ground arith
first_part-starts (c ∷ name) (d ∷ relative) h = ground (arith, first_part-starts name relative)

-- A name without slashes has no first part.
pub first_part-of_name :
    (name relative part : Bytes)
    → no_slash name ≡ true
    → first_part relative ≡ some part
    → bytes_beq relative name ≡ false
unfolding no_slash first_part bytes_beq
first_part-of_name name [] part h e = absurd (cc e)
first_part-of_name [] (d ∷ relative) part h e = refl
first_part-of_name (c ∷ name) (d ∷ relative) part h e = elim (Option-cases (first_part relative)) [
  | inl none_left ↦ ground (arith, none_left)
  | inr (p, cut) ↦ ground (arith, first_part-of_name name relative p)
]

pub before_irreflexive : (a : Bytes) → before a a ≡ false
unfolding before
before_irreflexive [] = refl
before_irreflexive (c ∷ a) = ground (arith, before_irreflexive a)
