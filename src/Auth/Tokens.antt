-- ===== src/Auth/Tokens.antt =====
-- The number of a tenant, through the text in its token.
use backupos.Base.{
  ℕ, zero, suc, ◌+◌, ◌*◌, ◌-◌, ◌/◌, ◌%◌, ◌≤◌, ◌<◌, ◌≡◌, ◌≢◌, ◌&&◌, refl, ap, ◌∙◌, inl, inr, some,
  [], ◌∷◌, ◌++◌, Bytes, ltb, leb, arith, Bool-cases,
}
use backupos.Restore.{digits}
use backupos.Auth.{int_from, int_of}

int_from-append :
    (n m d : ℕ) (text : Bytes)
    → d < 10
    → int_from n text ≡ some m
    → int_from n (text ++ (48 + d) ∷ []) ≡ some (10 * m + d)
unfolding int_from
int_from-append n m d [] small e = ground (arith, e, small)
int_from-append n m d (c ∷ text) small e = elim (Bool-cases (leb 48 c && leb c 57)) [
  | inl digit ↦ rw digit (int_from-append (10 * n + (c - 48)) m d text small (rw digit at e))
  | inr other ↦ absurd (cc (rw other at e))
]

int_from-digits : (fuel n : ℕ) → n ≤ fuel → int_from 0 (digits fuel n) ≡ some n
unfolding int_from digits
int_from-digits zero n h = ground (arith, h)
int_from-digits (suc fuel) n h = elim (Bool-cases (ltb n 10)) [
  | inl small ↦ rw small (ground (arith, small))
  | inr large ↦ rw large (
      int_from-append 0 (n / 10) (n % 10) (digits fuel (n / 10)) (omega arith)
        (int_from-digits fuel (n / 10) (ground (arith, h, large)))
      ∙ ap some (omega arith))
]

append_nonempty : (text : Bytes) (c : ℕ) → text ++ c ∷ [] ≢ []
append_nonempty [] c e = cc
append_nonempty (d ∷ text) c e = cc

digits_nonempty : (fuel n : ℕ) → digits fuel n ≢ []
unfolding digits
digits_nonempty zero n e = cc
digits_nonempty (suc fuel) n e = elim (Bool-cases (ltb n 10)) [
  | inl small ↦ absurd (cc (rw small at e))
  | inr large ↦ append_nonempty (digits fuel (n / 10)) (48 + n % 10) (rw large at e)
]

int_of_nonempty : (text : Bytes) → text ≢ [] → int_of text ≡ int_from 0 text
unfolding int_of
int_of_nonempty [] h = absurd (h refl)
int_of_nonempty (c ∷ text) h = refl

-- Reading the digits of a number gives the number.
pub int_of-digits : (n : ℕ) → int_of (digits n n) ≡ some n
int_of-digits n =
    int_of_nonempty (digits n n) (digits_nonempty n n) ∙ int_from-digits n n (omega arith)
