-- ===== src/Alerts.antt =====
-- app/api/anomalies.py: the queries of alerts, and resolving one. A row of `anomaly_alerts` has the
-- columns that the checks set, as `AnomalyAlert`, and the others.
pub mod Resolution
mod Tests
use backupos.Base.{
  ℕ, Bool, true, not, ◌&&◌, Option, none, some, List, [], ◌∷◌, nat_eq, ltb, ◌==◌, if◌then◌else◌,
}
use backupos.Models.{AnomalyAlert}
use backupos.Http.{Response, answer, failed_with, not_found}
use backupos.Snapshots.{DataSource, owns}
use backupos.Queries.{if_owned}

pub record AlertRow (Float : Type 0) : Type 0 where
  pub id : ℕ
  pub alert : AnomalyAlert Float
  pub created_at : ℕ
  pub resolved_at : Option ℕ

module _ {Float : Type 0} where
  -- `.order_by(AnomalyAlert.created_at.desc())`
  unfoldable pub insert_row : AlertRow Float → List (AlertRow Float) → List (AlertRow Float)
  insert_row r [] = r ∷ []
  insert_row r (q ∷ rows) =
      let rest = insert_row r rows in
      if ltb r.created_at q.created_at then q ∷ rest else r ∷ q ∷ rows

  unfoldable pub rows_where :
      (AlertRow Float → Bool) → List (AlertRow Float) → List (AlertRow Float)
  rows_where test [] = []
  rows_where test (r ∷ rows) =
      let rest = rows_where test rows in if test r then insert_row r rest else rest

  abbrev pub is_open_for : ℕ → List DataSource → AlertRow Float → Bool
  is_open_for tenant_id sources r = owns tenant_id r.alert.source_id sources && not r.alert.resolved

  unfoldable pub list_anomalies :
      ℕ → List DataSource → List (AlertRow Float) → Response (List (AlertRow Float))
  list_anomalies tenant_id sources rows = answer (rows_where (is_open_for tenant_id sources) rows)

  unfoldable pub list_source_anomalies :
      ℕ → List DataSource → ℕ → List (AlertRow Float) → Response (List (AlertRow Float))
  list_source_anomalies tenant_id sources source_id rows =
      if_owned tenant_id source_id sources
        (answer (rows_where (λ (r : AlertRow Float). r.alert.source_id == source_id) rows))

  -- `.where(AnomalyAlert.id == alert_id, DataSource.tenant_id == tenant.id)`
  unfoldable pub find_alert :
      ℕ → ℕ → List DataSource → List (AlertRow Float) → Option (AlertRow Float)
  find_alert alert_id tenant_id sources [] = none
  find_alert alert_id tenant_id sources (r ∷ rows) =
      if r.id == alert_id && owns tenant_id r.alert.source_id sources
      then some r
      else find_alert alert_id tenant_id sources rows

  unfoldable pub to_resolved : ℕ → AlertRow Float → AlertRow Float
  to_resolved now r = record r {
    alert = record r.alert { resolved = true };
    resolved_at = some now;
  }

  unfoldable pub set_resolved : ℕ → ℕ → List (AlertRow Float) → List (AlertRow Float)
  set_resolved now alert_id [] = []
  set_resolved now alert_id (r ∷ rows) =
      let rest = set_resolved now alert_id rows in
      (if r.id == alert_id then to_resolved now r else r) ∷ rest

  unfoldable pub resolve_alert :
      ℕ
      → ℕ
      → List DataSource
      → ℕ
      → List (AlertRow Float)
      → Response (AlertRow Float) × List (AlertRow Float)
  resolve_alert now tenant_id sources alert_id rows =
      elim (find_alert alert_id tenant_id sources rows) [
        | none ↦ (failed_with not_found, rows)
        | some r ↦ (answer (to_resolved now r), set_resolved now alert_id rows)
      ]
