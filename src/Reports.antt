-- ===== src/Reports.antt =====
-- app/api/anomalies.py: the compliance report of a tenant, and its score. The averages over the
-- sources are left out: the scores that they are taken of are there.
pub mod Totals
mod Tests
use backupos.Base.{
  ℕ, Bool, not, ◌&&◌, Option, none, some, List, [], ◌∷◌, nat_eq, ◌==◌, length, if◌then◌else◌,
}
use backupos.Models.{BackupPolicy, AnomalyAlert, Database}
use backupos.Backup.Alerts.{policy_of}
use backupos.Snapshots.{DataSource, owns}
use backupos.Compliance.{
  ScoredPolicy, ComplianceScore, score_source_compliance, total_violations, critical_count,
}
use backupos.Api.Backups.{map_option}
use backupos.Sources.{SourceRow, SourceTable, sources_of, sources_of_tenant}

-- `generate_report`, without the time.
pub record ComplianceReport : Type 0 where
  pub tenant_id : ℕ
  pub sources : List ComplianceScore
  pub total_violations : ℕ
  pub critical_alerts : ℕ

-- `compliance_score`: the scores that the overall one is the average of, or 100 of none.
pub record TenantScore : Type 0 where
  pub tenant_id : ℕ
  pub scores : List ComplianceScore
  pub source_count : ℕ

module _ {Float : Type 0} where
  abbrev pub scored : BackupPolicy Float → ScoredPolicy
  scored p = record {
    retention_days = p.retention_days;
    rpo_minutes = p.rpo_minutes;
    frequency_minutes = p.frequency_minutes;
    require_checksum = p.require_checksum;
    require_dedup = p.require_dedup;
  }

  -- `all_alerts`
  unfoldable pub unresolved_alerts :
      ℕ → List DataSource → List (AnomalyAlert Float) → List (AnomalyAlert Float)
  unresolved_alerts tenant_id sources [] = []
  unresolved_alerts tenant_id sources (a ∷ alerts) =
      let rest = unresolved_alerts tenant_id sources alerts in
      if owns tenant_id a.source_id sources && not a.resolved then a ∷ rest else rest

  -- `alerts_by_source.get(source.id, [])`
  unfoldable pub alerts_of : ℕ → List (AnomalyAlert Float) → List (AnomalyAlert Float)
  alerts_of source_id [] = []
  alerts_of source_id (a ∷ alerts) =
      let rest = alerts_of source_id alerts in if a.source_id == source_id then a ∷ rest else rest

  unfoldable pub source_scores :
      List SourceRow → List (AnomalyAlert Float) → Database Float → List ComplianceScore
  source_scores [] all_alerts db = []
  source_scores (r ∷ sources) all_alerts db =
      let rest = source_scores sources all_alerts db in
      let policy = policy_of r.source.id db.policies db.attachments in
      score_source_compliance r.classification (map_option scored policy)
        (alerts_of r.source.id all_alerts)
      ∷ rest

  -- Both handlers: the scores of the tenant's sources, with its unresolved alerts.
  unfoldable pub tenant_scores :
      ℕ → SourceTable → Database Float → List ComplianceScore × List (AnomalyAlert Float)
  tenant_scores tenant_id table db =
      let all_alerts = unresolved_alerts tenant_id (sources_of table.rows) db.alerts in
      (source_scores (sources_of_tenant tenant_id table.rows) all_alerts db, all_alerts)

  unfoldable pub compliance_report : ℕ → SourceTable → Database Float → ComplianceReport
  compliance_report tenant_id table db =
      let (scores, all_alerts) = tenant_scores tenant_id table db in
      record {
        tenant_id = tenant_id;
        sources = scores;
        total_violations = total_violations scores;
        critical_alerts = critical_count all_alerts;
      }

  unfoldable pub compliance_score : ℕ → SourceTable → Database Float → TenantScore
  compliance_score tenant_id table db =
      let scores = (tenant_scores tenant_id table db).0 in
      record { tenant_id = tenant_id; scores = scores; source_count = length scores }
