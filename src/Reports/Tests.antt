-- ===== src/Reports/Tests.antt =====
-- A tenant with one source, whose policy keeps snapshots for too short a time.
use backupos.Base.{ℕ, ◌≡◌, ◌↔◌, refl, none, true, false, [], ◌∷◌, codes, nat_eq, All}
use backupos.Models.{Database, entropy_spike, critical}
use backupos.Backup.Alerts.{policy_of, get_policy}
use backupos.Backup.Sample.{sample_db}
use backupos.Snapshots.{owns}
use backupos.Compliance.{
  internal, score_source_compliance, score_soc2, soc2_policy, any_critical, deduct,
  total_violations, critical_count,
}
use backupos.Sources.{SourceTable, directory, sources_of, sources_of_tenant}
use backupos.Reports.{
  ComplianceReport, unresolved_alerts, alerts_of, source_scores, tenant_scores, compliance_report,
}
use backupos.Reports.Totals.{IsBounded, IsPerfect, report-IsPerfect}

abbrev table : SourceTable
table = record {
  rows =
      record {
        source = record { id = 1; tenant_id = 6 };
        name = codes "n";
        source_type = directory;
        path = codes "/a";
        classification = internal;
        tags = codes "[]";
      }
      ∷ [];
  next_source_id = 2;
}

abbrev one : Database ℕ
one = record sample_db {
  policies =
      record {
        id = 1;
        tenant_id = 6;
        name = [];
        description = none;
        policy_yaml = [];
        frequency_minutes = 60;
        retention_days = 1;
        rpo_minutes = 60;
        require_checksum = true;
        require_dedup = true;
        entropy_threshold = 75;
        is_active = true;
      }
      ∷ [];
  attachments = record { policy_id = 1; source_id = 1 } ∷ [];
  alerts =
      record {
        source_id = 1;
        alert_type = entropy_spike;
        severity = critical;
        metric_value = 80;
        threshold_value = 75;
        resolved = false;
      }
      ∷ [];
}

abbrev report : ComplianceReport
report = compliance_report 6 table one

two_violations : (report.total_violations ≡ 2) × (report.critical_alerts ≡ 1)
unfolding compliance_report tenant_scores source_scores unresolved_alerts alerts_of sources_of
    sources_of_tenant owns policy_of get_policy score_source_compliance score_soc2 soc2_policy
    any_critical deduct total_violations critical_count
two_violations = (refl, refl)

report-IsPerfect_example :
    All IsBounded report.sources × ((report.total_violations ≡ 0) ↔ All IsPerfect report.sources)
report-IsPerfect_example = report-IsPerfect 6 table one
