-- ===== src/Reports/Totals.antt =====
-- The violations of a report and its scores.
use backupos.Base.{ℕ, ◌*◌, ◌≤◌, ◌≡◌, ◌↔◌, refl, List, [], ◌∷◌, All, arith}
use backupos.Models.{AnomalyAlert, Database}
use backupos.Backup.Alerts.{policy_of}
use backupos.Compliance.{ComplianceScore, total_violations}
use backupos.Compliance.Scores.{score_full}
use backupos.Api.Backups.{map_option}
use backupos.Sources.{SourceRow, SourceTable}
use backupos.Reports.{scored, alerts_of, source_scores, tenant_scores, compliance_report}

-- The score of a source is its average out of 100.
abbrev pub IsBounded : ComplianceScore → Type 0
IsBounded s = s.total ≤ 100 * s.count

abbrev pub IsPerfect : ComplianceScore → Type 0
IsPerfect s = s.total ≡ 100 * s.count

module _ {Float : Type 0} where
  scores-IsBounded :
      (sources : List SourceRow) (alerts : List (AnomalyAlert Float)) (db : Database Float)
      → All IsBounded (source_scores sources alerts db)
  unfolding source_scores
  scores-IsBounded [] alerts db = tt
  scores-IsBounded (r ∷ sources) alerts db = (
    (score_full r.classification
        (map_option scored (policy_of r.source.id db.policies db.attachments))
        (alerts_of r.source.id alerts)).0,
    scores-IsBounded sources alerts db,
  )

  total-IsPerfect :
      (sources : List SourceRow) (alerts : List (AnomalyAlert Float)) (db : Database Float)
      → (total_violations (source_scores sources alerts db) ≡ 0)
        ↔ All IsPerfect (source_scores sources alerts db)
  unfolding source_scores total_violations
  total-IsPerfect [] alerts db = (λ e. tt, λ h. refl)
  total-IsPerfect (r ∷ sources) alerts db =
      let one =
        score_full r.classification
          (map_option scored (policy_of r.source.id db.policies db.attachments))
          (alerts_of r.source.id alerts) in
      let rest = total-IsPerfect sources alerts db in
      (
        λ e. (one.1.1 (omega (arith, e)), rest.0 (omega (arith, e))),
        λ h. omega (arith, one.1.0 h.0, rest.1 h.1),
      )

  -- In the compliance report of a tenant, no score is over 100, and the report counts no violation
  -- exactly when every score is 100.
  pub report-IsPerfect :
      (tenant_id : ℕ) (table : SourceTable) (db : Database Float)
      → let report = compliance_report tenant_id table db in
        All IsBounded report.sources
        × ((report.total_violations ≡ 0) ↔ All IsPerfect report.sources)
  unfolding compliance_report tenant_scores
  report-IsPerfect tenant_id table db = (scores-IsBounded _ _ db, total-IsPerfect _ _ db)
