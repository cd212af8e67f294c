-- ===== src/Api/Policies/Tests.antt =====
-- Two policies, of which one is attached to the source of its tenant.
use backupos.Base.{ℕ, ◌≡◌, refl, none, true, List, [], ◌∷◌, codes}
use backupos.Models.{BackupPolicy, PolicyAttachment, Database}
use backupos.Http.{failed_with, conflict}
use backupos.Backup.Sample.{sample_db}
use backupos.Snapshots.{DataSource, owns}
use backupos.Api.Policies.{find_policy}
use backupos.Api.Policies.Attachments.{attached, attach_found, attach_policy}

abbrev sources : List DataSource
sources = record { id = 1; tenant_id = 6 } ∷ record { id = 2; tenant_id = 6 } ∷ []

abbrev policy : ℕ → BackupPolicy ℕ
policy n = record {
  id = n;
  tenant_id = 6;
  name = codes "daily";
  description = none;
  policy_yaml = [];
  frequency_minutes = 60;
  retention_days = 1;
  rpo_minutes = 60;
  require_checksum = true;
  require_dedup = true;
  entropy_threshold = 75;
  is_active = true;
}

abbrev attachment : PolicyAttachment
attachment = record { policy_id = 3; source_id = 1 }

abbrev one : Database ℕ
one = record sample_db {
  policies = policy 3 ∷ policy 4 ∷ [];
  attachments = attachment ∷ record { policy_id = 4; source_id = 1 } ∷ [];
}

second_attach_refused : (attach_policy 6 sources 3 1 one).0 ≡ failed_with conflict
unfolding attach_policy find_policy attach_found owns attached
second_attach_refused = refl
