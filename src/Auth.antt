-- ===== src/Auth.antt =====
-- app/core/auth.py, app/api/auth.py and app/models/tenant.py: tenants, their passwords, tokens and
-- API keys. The hashing of passwords and the tokens are parameters, with the laws that their
-- libraries document; the salt, the fresh key and the time are arguments.
pub mod Tokens
pub mod Login
pub mod Keys
mod Tests
use backupos.Base.{
  ℕ, zero, suc, ◌+◌, ◌*◌, ◌-◌, ◌≡◌, ◌≢◌, ◌<◌, Bool, true, false, not, ◌&&◌, ◌||◌, Option, none,
  some, List, [], ◌∷◌, ◌++◌, Bytes, bytes_eq, codes, nat_eq, ltb, leb, ◌==◌, if◌then◌else◌,
}
use backupos.Http.{Response, answer, failed_with, bad_request, unauthorized, server_error}
use backupos.Restore.{digits}

pub record Tenant : Type 0 where
  pub id : ℕ
  pub name : Bytes
  pub email : Bytes
  pub hashed_password : Bytes
  pub api_key : Option Bytes
  pub is_active : Bool
  pub created_at : ℕ

pub record Tenants : Type 0 where
  pub tenants : List Tenant
  pub next_tenant_id : ℕ

-- `settings`
pub record Settings : Type 0 where
  pub secret_key : Bytes
  pub access_token_expire_minutes : ℕ

-- `pwd_context` and `jwt`. `decode` gives the claim `sub`, if the token has one; it is `none` where
-- it raises.
pub record Crypto : Type 0 where
  pub hash : Bytes → Bytes → Bytes
  pub verify : Bytes → Bytes → Bool
  pub verify_hash : (salt password : Bytes) → verify password (hash salt password) ≡ true
  pub encode : Bytes → Bytes → ℕ → Bytes
  pub decode : Bytes → ℕ → Bytes → Option (Option Bytes)
  pub encode_nonempty : (secret_key sub : Bytes) (expire : ℕ) → encode secret_key sub expire ≢ []
  pub decode_encode :
      (secret_key sub : Bytes) (expire now : ℕ)
      → now < expire
      → decode secret_key now (encode secret_key sub expire) ≡ some (some sub)

-- The first tenant that passes a test. The columns that are tested are unique.
unfoldable pub find_tenant : (Tenant → Bool) → List Tenant → Option Tenant
find_tenant test [] = none
find_tenant test (t ∷ tenants) = if test t then some t else find_tenant test tenants

abbrev pub has_key : Bytes → Tenant → Bool
has_key key t = elim t.api_key [ none ↦ false | some k ↦ k == key ]

-- `.where(Tenant.api_key == api_key, Tenant.is_active == True)`
abbrev pub is_key_of : Bytes → Tenant → Bool
is_key_of key t = has_key key t && t.is_active

-- `.where(Tenant.id == int(tenant_id), Tenant.is_active == True)`
abbrev pub is_id_of : ℕ → Tenant → Bool
is_id_of n t = t.id == n && t.is_active

-- `int(·)` of decimal digits, after some of them. Of other texts it is `none`: a token that the
-- application has signed holds no sign, space or underscore there.
unfoldable pub int_from : ℕ → Bytes → Option ℕ
int_from n [] = some n
int_from n (c ∷ text) =
    let rest = int_from (10 * n + (c - 48)) text in if leb 48 c && leb c 57 then rest else none

unfoldable pub int_of : Bytes → Option ℕ
int_of [] = none
int_of (c ∷ text) = int_from 0 (c ∷ text)

abbrev pub or_unauthorized : {A : Type 0} → Option A → Response A
or_unauthorized none = failed_with unauthorized
or_unauthorized (some a) = answer a

-- Another tenant with the key would break its uniqueness in the table.
unfoldable pub key_taken : ℕ → Bytes → List Tenant → Bool
key_taken tenant_id key [] = false
key_taken tenant_id key (t ∷ tenants) =
    (has_key key t && not (t.id == tenant_id)) || key_taken tenant_id key tenants

unfoldable pub set_key : ℕ → Bytes → List Tenant → List Tenant
set_key tenant_id key [] = []
set_key tenant_id key (t ∷ tenants) =
    let rest = set_key tenant_id key tenants in
    (if t.id == tenant_id then record t { api_key = some key } else t) ∷ rest

-- For the tenant that `get_current_tenant` gave, with a fresh key.
unfoldable pub rotate_api_key : Bytes → Tenant → Tenants → Response Bytes × Tenants
rotate_api_key key tenant db =
    if key_taken tenant.id key db.tenants
    then (failed_with server_error, db)
    else (answer key, record db { tenants = set_key tenant.id key db.tenants })

module _ (crypto : Crypto) (settings : Settings) where
  open crypto use {hash, verify, encode, decode}
  open settings use {secret_key, access_token_expire_minutes}

  -- `create_access_token({"sub": …})`
  unfoldable pub create_access_token : ℕ → Bytes → Bytes
  create_access_token now sub = encode secret_key sub (now + access_token_expire_minutes * 60)

  -- A `sub` that is no number ends in an exception that is not caught.
  unfoldable pub tenant_of_sub : Bytes → List Tenant → Response Tenant
  tenant_of_sub sub tenants = elim (int_of sub) [
    | none ↦ failed_with server_error
    | some n ↦ or_unauthorized (find_tenant (is_id_of n) tenants)
  ]

  unfoldable pub tenant_of_token : ℕ → Option Bytes → List Tenant → Response Tenant
  tenant_of_token now none tenants = failed_with unauthorized
  tenant_of_token now (some []) tenants = failed_with unauthorized
  tenant_of_token now (some (c ∷ token)) tenants = elim (decode secret_key now (c ∷ token)) [
    | none ↦ failed_with unauthorized
    | some none ↦ failed_with unauthorized
    | some (some sub) ↦ tenant_of_sub sub tenants
  ]

  -- An API key that is not empty comes first.
  unfoldable pub get_current_tenant :
      ℕ → Option Bytes → Option Bytes → List Tenant → Response Tenant
  get_current_tenant now token none tenants = tenant_of_token now token tenants
  get_current_tenant now token (some []) tenants = tenant_of_token now token tenants
  get_current_tenant now token (some (c ∷ api_key)) tenants =
      or_unauthorized (find_tenant (is_key_of (c ∷ api_key)) tenants)

  unfoldable pub new_tenant : ℕ → ℕ → Bytes → Bytes → Bytes → Bytes → Bytes → Tenant
  new_tenant tenant_id now salt key name email password = record {
    id = tenant_id;
    name = name;
    email = email;
    hashed_password = hash salt password;
    api_key = some key;
    is_active = true;
    created_at = now;
  }

  unfoldable pub login : ℕ → Bytes → Bytes → List Tenant → Response Bytes
  login now email password tenants = elim (find_tenant (λ t. t.email == email) tenants) [
    | none ↦ failed_with unauthorized
    | some t ↦
        if verify password t.hashed_password
        then answer (create_access_token now (digits t.id t.id))
        else failed_with unauthorized
  ]

  unfoldable pub register :
      ℕ → Bytes → Bytes → Bytes → Bytes → Bytes → Tenants → Response Tenant × Tenants
  register now salt key name email password db =
      elim (find_tenant (λ t. t.email == email) db.tenants) [
        | some t ↦ (failed_with bad_request, db)
        | none ↦
            let t = new_tenant db.next_tenant_id now salt key name email password in
            if key_taken db.next_tenant_id key db.tenants then (failed_with server_error, db) else (
              answer t,
              record { tenants = db.tenants ++ t ∷ []; next_tenant_id = db.next_tenant_id + 1 },
            )
      ]
