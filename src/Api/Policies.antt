-- ===== src/Api/Policies.antt =====
-- app/api/policies.py, with the validators of app/schemas/policy.py. `safe_load` and the
-- conversions of Python are parameters; numbers are not negative.

pub mod Attachments
pub mod Rows
pub mod Updates
mod Tests
use backupos.Base.{
  ℕ, ◌+◌, Bool, true, false, ◌&&◌, Option, none, some, List, [], ◌∷◌, ◌++◌, Bytes, bytes_eq, codes,
  nat_eq, ◌==◌, take, drop, if◌then◌else◌,
}
use backupos.Base.Dict.{Dict, lookup}
use backupos.Entropy.{FloatOps}
use backupos.Models.{BackupPolicy, Database}
use backupos.Http.{Status, Response, answer, failed_with, not_found, unprocessable, server_error}
use backupos.Api.Backups.{log_event}

pub data YamlValue (Float : Type 0) : Type 0 where
  int : ℕ → YamlValue Float
  bool : Bool → YamlValue Float
  float : Float → YamlValue Float
  text : Bytes → YamlValue Float
  other : YamlValue Float

-- What `yaml.safe_load` gives: a mapping, or anything else, which is refused with a status, by the
-- validator or by an exception behind it.
pub data YamlDocument (Float : Type 0) : Type 0 where
  mapping : Dict Bytes (YamlValue Float) → YamlDocument Float
  refused : Status → YamlDocument Float

-- `int(·)`, `bool(·)` and `float(·)`; `none` where they raise.
pub record Conversions (Float : Type 0) : Type 0 where
  pub to_int : YamlValue Float → Option ℕ
  pub to_bool : YamlValue Float → Bool
  pub to_float : YamlValue Float → Option Float

-- The columns that are read from the text.
pub record ParsedPolicy (Float : Type 0) : Type 0 where
  pub frequency_minutes : ℕ
  pub retention_days : ℕ
  pub rpo_minutes : ℕ
  pub require_checksum : Bool
  pub require_dedup : Bool
  pub entropy_threshold : Float

module _ (F : FloatOps) (safe_load : Bytes → YamlDocument (FloatOps.Float F))
    (convert : Conversions (FloatOps.Float F)) where
  open F use {Float, decimal}
  open convert use {to_int, to_bool, to_float}

  -- `data.get(key, default)`
  unfoldable pub get_value :
      Bytes → YamlValue Float → Dict Bytes (YamlValue Float) → YamlValue Float
  get_value key default fields = elim (lookup key fields) [ none ↦ default | some v ↦ v ]

  -- `field in data`
  unfoldable pub has_field : Bytes → Dict Bytes (YamlValue Float) → Bool
  has_field key fields = elim (lookup key fields) [ none ↦ false | some v ↦ true ]

  abbrev pub has_required : Dict Bytes (YamlValue Float) → Bool
  has_required fields =
      has_field (codes "frequency_minutes") fields
      && has_field (codes "retention_days") fields
      && has_field (codes "rpo_minutes") fields

  -- A conversion that raises ends the request with an error of the server.
  abbrev pub converted : {A B : Type 0} → Option A → (A → Response B) → Response B
  converted none f = failed_with server_error
  converted (some a) f = f a

  unfoldable pub parse_fields : Dict Bytes (YamlValue Float) → Response (ParsedPolicy Float)
  parse_fields fields =
      converted (to_int (get_value (codes "frequency_minutes") (int 1440) fields)) λ frequency.
        converted (to_int (get_value (codes "retention_days") (int 30) fields)) λ retention.
          converted (to_int (get_value (codes "rpo_minutes") (int 1440) fields)) λ rpo.
            converted
              (to_float (get_value (codes "entropy_threshold") (float (decimal 75 1)) fields))
              λ threshold. answer (record {
                frequency_minutes = frequency;
                retention_days = retention;
                rpo_minutes = rpo;
                require_checksum =
                    to_bool (get_value (codes "require_checksum") (bool true) fields);
                require_dedup = to_bool (get_value (codes "require_dedup") (bool true) fields);
                entropy_threshold = threshold;
              })

  -- `validate_yaml`, and then `_parse_policy_yaml`.
  unfoldable pub parse_policy_yaml : Bytes → Response (ParsedPolicy Float)
  parse_policy_yaml policy_yaml = elim (safe_load policy_yaml) [
    | refused status ↦ failed_with status
    | mapping fields ↦
        if has_required fields then parse_fields fields else failed_with unprocessable
  ]

  -- `**parsed` and the loop with `setattr`.
  unfoldable pub set_parsed : Bytes → ParsedPolicy Float → BackupPolicy Float → BackupPolicy Float
  set_parsed policy_yaml parsed p = record p {
    policy_yaml = policy_yaml;
    frequency_minutes = parsed.frequency_minutes;
    retention_days = parsed.retention_days;
    rpo_minutes = parsed.rpo_minutes;
    require_checksum = parsed.require_checksum;
    require_dedup = parsed.require_dedup;
    entropy_threshold = parsed.entropy_threshold;
  }

  unfoldable pub new_policy :
      ℕ → ℕ → Bytes → Option Bytes → Bytes → ParsedPolicy Float → BackupPolicy Float
  new_policy policy_id tenant_id name description policy_yaml parsed = record {
    id = policy_id;
    tenant_id = tenant_id;
    name = name;
    description = description;
    policy_yaml = policy_yaml;
    frequency_minutes = parsed.frequency_minutes;
    retention_days = parsed.retention_days;
    rpo_minutes = parsed.rpo_minutes;
    require_checksum = parsed.require_checksum;
    require_dedup = parsed.require_dedup;
    entropy_threshold = parsed.entropy_threshold;
    is_active = true;
  }

  unfoldable pub create_policy :
      ℕ
      → Bytes
      → Option Bytes
      → Bytes
      → Database Float
      → Response (BackupPolicy Float) × Database Float
  create_policy tenant_id name description policy_yaml db = elim (parse_policy_yaml policy_yaml) [
    | failed_with status ↦ (failed_with status, db)
    | answer parsed ↦
        let policy = new_policy db.next_policy_id tenant_id name description policy_yaml parsed in
        (
          answer policy,
          log_event tenant_id (codes "policy.created") (codes "BackupPolicy") none (record db {
            policies = db.policies ++ policy ∷ [];
            next_policy_id = db.next_policy_id + 1;
          }),
        )
  ]

module _ {Float : Type 0} where
  -- `.where(BackupPolicy.id == policy_id, BackupPolicy.tenant_id == tenant.id)`
  unfoldable pub find_policy : ℕ → ℕ → List (BackupPolicy Float) → Option (BackupPolicy Float)
  find_policy policy_id tenant_id [] = none
  find_policy policy_id tenant_id (p ∷ policies) =
      if p.id == policy_id && p.tenant_id == tenant_id
      then some p
      else find_policy policy_id tenant_id policies

  unfoldable pub of_tenant : ℕ → List (BackupPolicy Float) → List (BackupPolicy Float)
  of_tenant tenant_id [] = []
  of_tenant tenant_id (p ∷ policies) =
      let rest = of_tenant tenant_id policies in if p.tenant_id == tenant_id then p ∷ rest else rest

  unfoldable pub list_policies : ℕ → ℕ → ℕ → Database Float → Response (List (BackupPolicy Float))
  list_policies tenant_id skip limit db =
      answer (take limit (drop skip (of_tenant tenant_id db.policies)))

  unfoldable pub get_policy_of : ℕ → ℕ → Database Float → Response (BackupPolicy Float)
  get_policy_of tenant_id policy_id db = elim (find_policy policy_id tenant_id db.policies) [
    | none ↦ failed_with not_found
    | some p ↦ answer p
  ]

  -- The assignments to the columns of the policy with an id.
  unfoldable pub set_policy :
      ℕ
      → (BackupPolicy Float → BackupPolicy Float)
      → List (BackupPolicy Float)
      → List (BackupPolicy Float)
  set_policy policy_id change [] = []
  set_policy policy_id change (p ∷ policies) =
      let rest = set_policy policy_id change policies in
      (if p.id == policy_id then change p else p) ∷ rest

  unfoldable pub drop_policies : ℕ → List (BackupPolicy Float) → List (BackupPolicy Float)
  drop_policies policy_id [] = []
  drop_policies policy_id (p ∷ policies) =
      let rest = drop_policies policy_id policies in if p.id == policy_id then rest else p ∷ rest
