-- ===== src/Auth/Login.antt =====
-- From the registration of a tenant to its requests.
use backupos.Base.{
  ℕ, ◌+◌, ◌*◌, ◌<◌, ◌≡◌, ◌≢◌, refl, sym, ap, subst, inl, inr, true, none, some, List, [], ◌∷◌, ◌++◌,
  Bytes, bytes_eq, beq_refl, nat_eq, ◌==◌, All, arith, Bool, Bool-cases, Option-cases,
}
use backupos.Http.{answer_inj, failed_ne, answer}
use backupos.Restore.{digits}
use backupos.Auth.{
  Tenant, Tenants, Settings, Crypto, find_tenant, is_id_of, create_access_token, tenant_of_sub,
  tenant_of_token, get_current_tenant, new_tenant, login, register, key_taken,
}
use backupos.Auth.Tokens.{int_of-digits}

find_tenant-append :
    (test : Tenant → Bool) (tenants : List Tenant) (t : Tenant)
    → find_tenant test tenants ≡ none
    → test t ≡ true
    → find_tenant test (tenants ++ t ∷ []) ≡ some t
unfolding find_tenant
find_tenant-append test [] t e h = rw h refl
find_tenant-append test (s ∷ tenants) t e h = elim (Bool-cases (test s)) [
  | inl here ↦ absurd (cc (rw here at e))
  | inr other ↦ rw other (find_tenant-append test tenants t (rw other at e) h)
]

find_tenant_fresh :
    (n : ℕ) (tenants : List Tenant)
    → All (λ (t : Tenant). t.id < n) tenants
    → find_tenant (is_id_of n) tenants ≡ none
unfolding find_tenant
find_tenant_fresh n [] h = refl
find_tenant_fresh n (t ∷ tenants) h = ground (arith, h.0, find_tenant_fresh n tenants h.1)

module _ (crypto : Crypto) (settings : Settings) where
  open crypto use {encode, decode_encode, encode_nonempty, verify_hash}
  open settings use {secret_key, access_token_expire_minutes}

  -- What a registration that is answered has done.
  record IsRegistered (now : ℕ) (salt key name email password : Bytes) (db : Tenants) (t : Tenant)
      : Type 0 where
    new : t ≡ new_tenant crypto settings db.next_tenant_id now salt key name email password
    rows :
        (register crypto settings now salt key name email password db).1.tenants
        ≡ db.tenants ++ t ∷ []
    unused : find_tenant (λ s. s.email == email) db.tenants ≡ none

  register-IsRegistered :
      (now : ℕ) (salt key name email password : Bytes) (db : Tenants) (t : Tenant)
      → (register crypto settings now salt key name email password db).0 ≡ answer t
      → IsRegistered now salt key name email password db t
  unfolding register
  register-IsRegistered now salt key name email password db t e =
      let made = new_tenant crypto settings db.next_tenant_id now salt key name email password in
      elim (Option-cases (find_tenant (λ s. s.email == email) db.tenants)) [
        | inr (s, used) ↦ absurd (failed_ne _ t (rw (used, register) at e))
        | inl free ↦ elim (Bool-cases (key_taken db.next_tenant_id key db.tenants)) [
          | inl taken ↦ absurd (failed_ne _ t (rw (free, taken, register) at e))
          | inr fresh ↦
              let same = answer_inj made t (rw (free, fresh, register) at e) in
              record {
                new = sym same;
                rows = rw (free, fresh, register) (ap (λ s. db.tenants ++ s ∷ []) same);
                unused = free;
              }
        ]
      ]

  token-tenant :
      (later : ℕ) (token : Bytes) (tenants : List Tenant) (t : Tenant)
      → token ≢ []
      → crypto.decode secret_key later token ≡ some (some (digits t.id t.id))
      → find_tenant (is_id_of t.id) tenants ≡ some t
      → get_current_tenant crypto settings later (some token) none tenants ≡ answer t
  unfolding get_current_tenant tenant_of_token tenant_of_sub
  token-tenant later [] tenants t full read found = absurd (full refl)
  token-tenant later (c ∷ token) tenants t full read found =
      rw (get_current_tenant, tenant_of_token, read, tenant_of_sub, int_of-digits t.id, found) refl

  -- A tenant that has registered, in a table whose ids are below the next one, can log in with its
  -- email and password, and until the token expires each request with it is the tenant's.
  pub login-register :
      (now logged later : ℕ) (salt key name email password : Bytes) (db : Tenants) (t : Tenant)
      → All (λ (s : Tenant). s.id < db.next_tenant_id) db.tenants
      → (register crypto settings now salt key name email password db).0 ≡ answer t
      → later < logged + access_token_expire_minutes * 60
      → let after = (register crypto settings now salt key name email password db).1 in
        (token : Bytes) × (login crypto settings logged email password after.tenants ≡ answer token)
        × (get_current_tenant crypto settings later (some token) none after.tenants ≡ answer t)
  unfolding create_access_token new_tenant login
  login-register now logged later salt key name email password db t fresh done early =
      let r = register-IsRegistered now salt key name email password db t done in
      let known =
        find_tenant-append (λ s. s.email == email) db.tenants t r.unused
          (subst (λ (s : Tenant). (s.email == email) ≡ true) (sym r.new) (beq_refl email)) in
      let below =
        subst (λ n. All (λ (s : Tenant). s.id < n) db.tenants)
          (sym (ap (λ (s : Tenant). s.id) r.new)) fresh in
      let active = ap (λ (s : Tenant). s.is_active) r.new in
      let by_id =
        find_tenant-append (is_id_of t.id) db.tenants t (find_tenant_fresh t.id db.tenants below)
          (rw (beq_refl t.id, active) refl) in
      let verified =
        subst (λ (s : Tenant). crypto.verify password s.hashed_password ≡ true) (sym r.new)
          (verify_hash salt password) in
      let token = create_access_token crypto settings logged (digits t.id t.id) in
      rw r.rows (
        token,
        rw (login, known, verified) refl,
        token-tenant later token (db.tenants ++ t ∷ []) t (encode_nonempty _ _ _)
            (decode_encode _ _ _ later early) by_id,
      )
