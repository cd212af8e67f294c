-- ===== src/Api/Policies/Updates.antt =====
-- app/api/policies.py: `update_policy`.
use backupos.Base.{ℕ, Bool, Option, none, some, Bytes, codes, if◌then◌else◌}
use backupos.Entropy.{FloatOps}
use backupos.Models.{BackupPolicy, Database}
use backupos.Http.{Status, Response, answer, failed_with, not_found, unprocessable}
use backupos.Api.Backups.{log_event}
use backupos.Api.Policies.{
  YamlDocument, mapping, refused, Conversions, has_required, parse_policy_yaml, set_parsed,
  find_policy, set_policy,
}

-- `if payload.name is not None: …`
abbrev pub or_keep : {A : Type 0} → Option A → A → A
or_keep none old = old
or_keep (some new) old = new

abbrev pub or_keep_option : {A : Type 0} → Option A → Option A → Option A
or_keep_option none old = old
or_keep_option (some new) old = some new

-- `PolicyUpdate`
pub record PolicyUpdate : Type 0 where
  pub name : Option Bytes
  pub description : Option Bytes
  pub policy_yaml : Option Bytes
  pub is_active : Option Bool

module _ (F : FloatOps) (safe_load : Bytes → YamlDocument (FloatOps.Float F))
    (convert : Conversions (FloatOps.Float F)) where
  open F use {Float}

  unfoldable pub set_columns : PolicyUpdate → BackupPolicy Float → BackupPolicy Float
  set_columns update p = record p {
    name = or_keep update.name p.name;
    description = or_keep_option update.description p.description;
    is_active = or_keep update.is_active p.is_active;
  }

  -- The change of a policy, or the error that the text of the update ends in.
  unfoldable pub change_of : PolicyUpdate → Response (BackupPolicy Float → BackupPolicy Float)
  change_of update = elim update.policy_yaml [
    | none ↦ answer (set_columns update)
    | some policy_yaml ↦ elim (parse_policy_yaml F safe_load convert policy_yaml) [
      | failed_with status ↦ failed_with status
      | answer parsed ↦
          answer (λ p. set_parsed F safe_load convert policy_yaml parsed (set_columns update p))
    ]
  ]

  unfoldable pub update_found :
      ℕ
      → ℕ
      → PolicyUpdate
      → BackupPolicy Float
      → Database Float
      → Response (BackupPolicy Float) × Database Float
  update_found tenant_id policy_id update p db = elim (change_of update) [
    | failed_with status ↦ (failed_with status, db)
    | answer change ↦ (
      answer (change p),
      log_event tenant_id (codes "policy.updated") (codes "BackupPolicy") (some policy_id)
          (record db { policies = set_policy policy_id change db.policies }),
    )
  ]

  -- `validate_yaml`, which runs before the handler.
  unfoldable pub invalid : Option Bytes → Option Status
  invalid none = none
  invalid (some policy_yaml) = elim (safe_load policy_yaml) [
    | refused status ↦ some status
    | mapping fields ↦ if has_required F safe_load convert fields then none else some unprocessable
  ]

  unfoldable pub update_policy :
      ℕ → ℕ → PolicyUpdate → Database Float → Response (BackupPolicy Float) × Database Float
  update_policy tenant_id policy_id update db = elim (invalid update.policy_yaml) [
    | some status ↦ (failed_with status, db)
    | none ↦ elim (find_policy policy_id tenant_id db.policies) [
      | none ↦ (failed_with not_found, db)
      | some p ↦ update_found tenant_id policy_id update p db
    ]
  ]
