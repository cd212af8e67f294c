-- ===== src/Scheduler.antt =====
-- app/core/scheduler.py: the periodic jobs. Each runs in one session: what it has not committed is
-- rolled back when it raises.
pub mod Retention
pub mod Prune
pub mod Collect
pub mod Integrity
pub mod Policies
mod Tests
use backupos.Base.{
  ℕ, Bool, true, false, ◌&&◌, Option, none, some, List, [], ◌∷◌, nat_eq, ◌==◌, if◌then◌else◌,
}
use backupos.Models.{BackupPolicy, PolicyAttachment, Database}
use backupos.Backup.Alerts.{get_policy}

-- A row of the join of the attachments with the active policies. The source of an attachment is
-- there by the foreign key.
pub record PolicyRow (Float : Type 0) : Type 0 where
  pub policy : BackupPolicy Float
  pub source_id : ℕ

unfoldable pub join_policies :
    {Float : Type 0} → List (BackupPolicy Float) → List PolicyAttachment → List (PolicyRow Float)
join_policies policies [] = []
join_policies policies (a ∷ attachments) =
    let rest = join_policies policies attachments in
    elim (get_policy a.policy_id policies) [
      | none ↦ rest
      | some p ↦ if p.is_active then record { policy = p; source_id = a.source_id } ∷ rest else rest
    ]

unfoldable pub policy_rows : {Float : Type 0} → Database Float → List (PolicyRow Float)
policy_rows db = join_policies db.policies db.attachments
