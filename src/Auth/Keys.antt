-- ===== src/Auth/Keys.antt =====
-- What a rotation does to the keys.
use backupos.Base.{
  some_inj, ℕ, ◌≡◌, ◌≢◌, refl, ap, ◌∙◌, inl, inr, Bool, true, false, Option, none, some, List, [],
  ◌∷◌, Bytes, bytes_eq, bytes_beq_iff, beq_refl, nat_eq, ◌==◌, All, arith, Bool-cases, ◌&&◌,
}
use backupos.Http.{failed_ne, answer, failed_with, unauthorized}
use backupos.Auth.{
  or_unauthorized, Tenant, Tenants, Settings, Crypto, has_key, is_key_of, is_id_of, find_tenant,
  get_current_tenant, key_taken, set_key, rotate_api_key,
}

-- No other tenant has the key.
abbrev pub IsKeyOf : Bytes → ℕ → List Tenant → Type 0
IsKeyOf key n = All (λ (t : Tenant). has_key key t ≡ true → t.id ≡ n)

beq_ne : (a b : Bytes) → a ≢ b → (a == b) ≡ false
beq_ne a b h = ground (arith, bytes_beq_iff a b, h)

ne_of : (n k : ℕ) → (k == n) ≡ false → k ≢ n
ne_of n k e h = ground (arith, e, h)

find_old :
    (old key : Bytes) (n : ℕ) (tenants : List Tenant)
    → key ≢ old
    → IsKeyOf old n tenants
    → find_tenant (is_key_of old) (set_key n key tenants) ≡ none
unfolding find_tenant set_key
find_old old key n [] other h = refl
find_old old key n (t ∷ tenants) other h =
    let rest = find_old old key n tenants other h.1 in
    elim (Bool-cases (t.id == n)) [
      | inl same ↦ rw same (rw (beq_ne key old other) rest)
      | inr apart ↦ elim (Bool-cases (has_key old t)) [
        | inl had ↦ absurd (ne_of n t.id apart (h.0 had))
        | inr free ↦ rw (apart, free) rest
      ]
    ]

taken_head :
    (key : Bytes) (n : ℕ) (t : Tenant) (tenants : List Tenant)
    → key_taken n key (t ∷ tenants) ≡ false
    → (t.id == n) ≡ false
    → has_key key t ≡ false
unfolding key_taken
taken_head key n t tenants free apart = ground (arith, free, apart)

taken_tail :
    (key : Bytes) (n : ℕ) (t : Tenant) (tenants : List Tenant)
    → key_taken n key (t ∷ tenants) ≡ false
    → key_taken n key tenants ≡ false
unfolding key_taken
taken_tail key n t tenants free = ground (arith, free)

and_false : (a : Bool) → (a && false) ≡ false
and_false a = ground arith

both_true : (a b : Bool) → a ≡ true → b ≡ true → (a && b) ≡ true
both_true a b h k = ground (arith, h, k)

head_found :
    (n : ℕ) (s t : Tenant) (tenants : List Tenant)
    → is_id_of n s ≡ true
    → find_tenant (is_id_of n) (s ∷ tenants) ≡ some t
    → s ≡ t
unfolding find_tenant
head_found n s t tenants test here = some_inj s t (rw test at here)

find_new :
    (key : Bytes) (n : ℕ) (tenants : List Tenant) (t : Tenant)
    → key_taken n key tenants ≡ false
    → find_tenant (is_id_of n) tenants ≡ some t
    → find_tenant (is_key_of key) (set_key n key tenants) ≡ some (record t { api_key = some key })
unfolding find_tenant set_key key_taken
find_new key n [] t free here = absurd (cc here)
find_new key n (s ∷ tenants) t free here = elim (Bool-cases (s.id == n)) [
  | inr apart ↦
      rw (apart, taken_head key n s tenants free apart)
        (find_new key n tenants t (taken_tail key n s tenants free) (rw apart at here))
  | inl same ↦ elim (Bool-cases s.is_active) [
    | inl active ↦
        rw (same, both_true (key == key) s.is_active (beq_refl key) active)
          (ap (λ (x : Tenant). some (record x { api_key = some key }))
            (head_found n s t tenants (both_true (s.id == n) s.is_active same active) here))
    | inr passive ↦
        rw (same, passive, and_false (key == key))
          (find_new key n tenants t (taken_tail key n s tenants free) (rw (same, passive) at here))
  ]
]

or_unauthorized_lem :
    (o : Option Tenant)
    → or_unauthorized o ≡ elim o [ none ↦ failed_with unauthorized | some t ↦ answer t ]
or_unauthorized_lem none = refl
or_unauthorized_lem (some t) = refl

current_key :
    (crypto : Crypto) (settings : Settings) (now : ℕ) (token : Option Bytes) (key : Bytes)
    (tenants : List Tenant)
    → key ≢ []
    → get_current_tenant crypto settings now token (some key) tenants
      ≡ elim (find_tenant (is_key_of key) tenants) [
        | none ↦ failed_with unauthorized
        | some t ↦ answer t
      ]
unfolding get_current_tenant
current_key crypto settings now token [] tenants full = absurd (full refl)
current_key crypto settings now token (c ∷ key) tenants full =
    or_unauthorized_lem (find_tenant (is_key_of (c ∷ key)) tenants)

-- A tenant that is found by its id, and that alone has its old key, has rotated it to another one:
-- where the rotation is answered, the old key is refused from then on, and the new key is that of
-- the tenant, which has it in its row; no key is empty.
pub rotate-get_current_tenant :
    (crypto : Crypto) (settings : Settings) (now : ℕ) (token : Option Bytes) (old key : Bytes)
    (t : Tenant) (db : Tenants)
    → old ≢ []
    → key ≢ []
    → key ≢ old
    → find_tenant (is_id_of t.id) db.tenants ≡ some t
    → IsKeyOf old t.id db.tenants
    → (rotate_api_key key t db).0 ≡ answer key
    → let after = (rotate_api_key key t db).1.tenants in
      (get_current_tenant crypto settings now token (some old) after ≡ failed_with unauthorized)
      × (get_current_tenant crypto settings now token (some key) after
          ≡ answer (record t { api_key = some key }))
unfolding rotate_api_key
rotate-get_current_tenant crypto settings now token old key t db full full' other here sole done =
    elim (Bool-cases (key_taken t.id key db.tenants)) [
      | inl taken ↦ absurd (failed_ne _ key (rw (taken, rotate_api_key) at done))
      | inr free ↦
          rw (free, rotate_api_key)
            (
              current_key crypto settings now token old (set_key t.id key db.tenants) full
                  ∙ rw (find_old old key t.id db.tenants other sole) refl,
              current_key crypto settings now token key (set_key t.id key db.tenants) full'
                  ∙ rw (find_new key t.id db.tenants t free here) refl,
            )
    ]
