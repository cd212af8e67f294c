-- ===== src/Export/Lines.antt =====
-- Texts without line breaks can be told apart in the text that joins them.
use backupos.Base.{
  ◌≡◌, ◌≢◌, refl, ap, sym, false, List, [], ◌∷◌, ◌++◌, Bytes, nat_eq, contains, contains_right, All,
  arith,
}
use backupos.Export.{join_lines}

abbrev pub IsLine : Bytes → Type 0
IsLine line = (contains line 10 ≡ false) × (line ≢ [])

cons_inj {ℓ} : {A : Type ℓ} (x y : A) (xs ys : List A) → x ∷ xs ≡ y ∷ ys → (x ≡ y) × (xs ≡ ys)
cons_inj x y xs ys e = (cc, cc)

first_line :
    (x y a b : Bytes)
    → contains x 10 ≡ false
    → contains y 10 ≡ false
    → x ++ 10 ∷ a ≡ y ++ 10 ∷ b
    → (x ≡ y) × (a ≡ b)
first_line [] [] a b h k e = (refl, (cons_inj 10 10 a b e).1)
first_line [] (d ∷ y) a b h k e = absurd (ground (arith, k, (cons_inj 10 d a (y ++ 10 ∷ b) e).0))
first_line (c ∷ x) [] a b h k e = absurd (ground (arith, h, (cons_inj c 10 (x ++ 10 ∷ a) b e).0))
first_line (c ∷ x) (d ∷ y) a b h k e =
    let (heads, tails) = cons_inj c d (x ++ 10 ∷ a) (y ++ 10 ∷ b) e in
    let (rest, after) = first_line x y a b (ground (arith, h)) (ground (arith, k)) tails in
    (cc, after)

no_break : (x y b : Bytes) → contains x 10 ≡ false → x ≢ y ++ 10 ∷ b
no_break x y b h e =
    let there = contains_right y (10 ∷ b) 10 refl in
    absurd (cc (there, h, ap (λ t. contains t 10) e))

-- Texts that are not empty and have no line break are the same where the joined texts are.
pub join_lines_injective :
    (xs ys : List Bytes) → All IsLine xs → All IsLine ys → join_lines xs ≡ join_lines ys → xs ≡ ys
unfolding join_lines
join_lines_injective [] [] h k e = refl
join_lines_injective [] (y ∷ []) h k e = absurd (k.0.1 (sym e))
join_lines_injective [] (y ∷ y' ∷ ys) h k e = absurd (no_break [] y (join_lines (y' ∷ ys)) refl e)
join_lines_injective (x ∷ []) [] h k e = absurd (h.0.1 e)
join_lines_injective (x ∷ x' ∷ xs) [] h k e =
    absurd (no_break [] x (join_lines (x' ∷ xs)) refl (sym e))
join_lines_injective (x ∷ []) (y ∷ []) h k e = ap (λ z. z ∷ []) e
join_lines_injective (x ∷ []) (y ∷ y' ∷ ys) h k e =
    absurd (no_break x y (join_lines (y' ∷ ys)) h.0.0 e)
join_lines_injective (x ∷ x' ∷ xs) (y ∷ []) h k e =
    absurd (no_break y x (join_lines (x' ∷ xs)) k.0.0 (sym e))
join_lines_injective (x ∷ x' ∷ xs) (y ∷ y' ∷ ys) h k e =
    let (same, rest) = first_line x y (join_lines (x' ∷ xs)) (join_lines (y' ∷ ys)) h.0.0 k.0.0 e in
    let later = join_lines_injective (x' ∷ xs) (y' ∷ ys) h.1 k.1 rest in cc
