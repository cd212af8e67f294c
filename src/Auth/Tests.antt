-- ===== src/Auth/Tests.antt =====
-- A tenant that registers, logs in and rotates its key; passwords are not hashed and tokens not
-- signed here.
use backupos.Base.{
  ℕ, ◌≡◌, refl, true, Option, none, some, [], ◌∷◌, Bytes, bytes_beq, bytes_eq, nat_eq, ltb,
  if◌then◌else◌, codes, arith, bytes_beq_iff,
}
use backupos.Http.{answer, failed_with, unauthorized}
use backupos.Auth.{
  Tenant, Tenants, Settings, Crypto, find_tenant, tenant_of_token, get_current_tenant, new_tenant,
  login, register, key_taken, rotate_api_key,
}
use backupos.Auth.Login.{login-register}
use backupos.Auth.Keys.{rotate-get_current_tenant}

abbrev read_token : ℕ → Bytes → Option (Option Bytes)
read_token now [] = none
read_token now (expire ∷ sub) = if ltb now expire then some (some sub) else none

abbrev plain : Crypto
plain = record {
  hash = λ salt password. password;
  verify = λ password hashed. bytes_beq password hashed;
  verify_hash = λ salt password. (bytes_beq_iff password password).1 refl;
  encode = λ secret_key sub expire. expire ∷ sub;
  decode = λ secret_key now token. read_token now token;
  encode_nonempty = λ secret_key sub expire e. cc e;
  decode_encode = λ secret_key sub expire now early. ground (arith, early);
}

abbrev settings : Settings
settings = record { secret_key = codes "s"; access_token_expire_minutes = 1440 }

abbrev empty : Tenants
empty = record { tenants = []; next_tenant_id = 12 }

abbrev tenant : Tenant
tenant = record {
  id = 12;
  name = codes "n";
  email = codes "e";
  hashed_password = codes "p";
  api_key = some (1 ∷ []);
  is_active = true;
  created_at = 100;
}

abbrev one : Tenants
one = record { tenants = tenant ∷ []; next_tenant_id = 13 }

expired_refused :
    get_current_tenant plain settings 300 (some (300 ∷ codes "12")) none one.tenants
    ≡ failed_with unauthorized
unfolding get_current_tenant tenant_of_token
expired_refused = refl

login-register_example :
    let after =
      (register plain settings 100 [] (1 ∷ []) (codes "n") (codes "e") (codes "p") empty).1 in
    (token : Bytes) × (login plain settings 200 (codes "e") (codes "p") after.tenants
      ≡ answer token)
    × (get_current_tenant plain settings 300 (some token) none after.tenants ≡ answer tenant)
unfolding register find_tenant key_taken new_tenant
login-register_example =
    login-register plain settings 100 200 300 [] (1 ∷ []) (codes "n") (codes "e") (codes "p") empty
      tenant tt refl (omega arith)

rotate-get_current_tenant_example :
    let after = (rotate_api_key (2 ∷ []) tenant one).1.tenants in
    (get_current_tenant plain settings 300 none (some (1 ∷ [])) after ≡ failed_with unauthorized)
    × (get_current_tenant plain settings 300 none (some (2 ∷ [])) after
        ≡ answer (record tenant { api_key = some (2 ∷ []) }))
unfolding rotate_api_key key_taken find_tenant bytes_beq
rotate-get_current_tenant_example =
    rotate-get_current_tenant plain settings 300 none (1 ∷ []) (2 ∷ []) tenant one (λ e. cc e)
      (λ e. cc e) (λ e. cc e) refl ((λ h. refl), tt) refl
