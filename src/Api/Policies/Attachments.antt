-- ===== src/Api/Policies/Attachments.antt =====
-- app/api/policies.py: attaching a policy to a source, and deleting one.
use backupos.Base.{
  ℕ, Bool, false, not, ◌&&◌, ◌||◌, none, some, List, [], ◌∷◌, ◌++◌, codes, nat_eq, ◌==◌,
  if◌then◌else◌,
}
use backupos.Models.{PolicyAttachment, Database}
use backupos.Http.{Response, answer, failed_with, not_found, conflict}
use backupos.Snapshots.{DataSource, owns}
use backupos.Api.Backups.{log_event}
use backupos.Api.Policies.{find_policy, drop_policies}

-- `.where(policy_id == …, source_id == …)` finds a row.
unfoldable pub attached : ℕ → ℕ → List PolicyAttachment → Bool
attached policy_id source_id [] = false
attached policy_id source_id (a ∷ attachments) =
    (a.policy_id == policy_id && a.source_id == source_id)
    || attached policy_id source_id attachments

-- The cascade of the delete.
unfoldable pub detach : ℕ → List PolicyAttachment → List PolicyAttachment
detach policy_id [] = []
detach policy_id (a ∷ attachments) =
    let rest = detach policy_id attachments in if a.policy_id == policy_id then rest else a ∷ rest

module _ {Float : Type 0} where
  unfoldable pub attach_found :
      ℕ → List DataSource → ℕ → ℕ → Database Float → Response PolicyAttachment × Database Float
  attach_found tenant_id sources policy_id source_id db =
      let attachment : PolicyAttachment = record { policy_id = policy_id; source_id = source_id } in
      if not (owns tenant_id source_id sources)
      then (failed_with not_found, db)
      else if attached policy_id source_id db.attachments
      then (failed_with conflict, db)
      else (
        answer attachment,
        log_event tenant_id (codes "policy.attached") (codes "BackupPolicy") (some policy_id)
            (record db { attachments = db.attachments ++ attachment ∷ [] }),
      )

  unfoldable pub attach_policy :
      ℕ → List DataSource → ℕ → ℕ → Database Float → Response PolicyAttachment × Database Float
  attach_policy tenant_id sources policy_id source_id db =
      elim (find_policy policy_id tenant_id db.policies) [
        | none ↦ (failed_with not_found, db)
        | some p ↦ attach_found tenant_id sources policy_id source_id db
      ]

  unfoldable pub remove_policy : ℕ → ℕ → Database Float → Database Float
  remove_policy tenant_id policy_id db =
      log_event tenant_id (codes "policy.deleted") (codes "BackupPolicy") (some policy_id)
        (record db {
          policies = drop_policies policy_id db.policies;
          attachments = detach policy_id db.attachments;
        })

  unfoldable pub delete_policy : ℕ → ℕ → Database Float → Response (Unit {0}) × Database Float
  delete_policy tenant_id policy_id db = elim (find_policy policy_id tenant_id db.policies) [
    | none ↦ (failed_with not_found, db)
    | some p ↦ (answer tt, remove_policy tenant_id policy_id db)
  ]
