-- ===== src/Alerts/Tests.antt =====
-- Two alerts of one source, of which the first is resolved at 9.
use backupos.Base.{ℕ, ◌≡◌, refl, false, none, [], ◌∷◌, nat_eq, List}
use backupos.Models.{rpo_violation, dedup_ratio_collapse, high, low}
use backupos.Http.{answer, failed_with, not_found}
use backupos.Snapshots.{DataSource, owns}
use backupos.Alerts.{
  AlertRow, insert_row, rows_where, is_open_for, list_anomalies, list_source_anomalies, find_alert,
  to_resolved, set_resolved, resolve_alert,
}
use backupos.Alerts.Resolution.{count, resolve_alert-count}

abbrev sources : List DataSource
sources = record { id = 1; tenant_id = 6 } ∷ []

abbrev first : AlertRow ℕ
first = record {
  id = 4;
  alert = record {
    source_id = 1;
    alert_type = rpo_violation;
    severity = high;
    metric_value = 30;
    threshold_value = 10;
    resolved = false;
  };
  created_at = 2;
  resolved_at = none;
}

abbrev second : AlertRow ℕ
second = record first {
  id = 5;
  alert = record first.alert { alert_type = dedup_ratio_collapse; severity = low };
  created_at = 3;
}

-- The newest alert is listed first.
newest_first : list_anomalies 6 sources (first ∷ second ∷ []) ≡ answer (second ∷ first ∷ [])
unfolding list_anomalies rows_where insert_row owns
newest_first = refl

of_source_after_resolving :
    list_source_anomalies 6 sources 1 (resolve_alert 9 6 sources 4 (first ∷ second ∷ [])).1
    ≡ answer (second ∷ to_resolved 9 first ∷ [])
unfolding list_source_anomalies rows_where insert_row resolve_alert find_alert set_resolved
    to_resolved owns
of_source_after_resolving = refl

other_tenant_refused :
    resolve_alert 9 7 sources 4 (first ∷ second ∷ []) ≡ (failed_with not_found, first ∷ second ∷ [])
unfolding resolve_alert find_alert owns
other_tenant_refused = refl

resolve_alert-count_example :
    let after = (resolve_alert 9 6 sources 4 (first ∷ second ∷ [])).1 in
    count 4 (rows_where (is_open_for 6 sources) after) ≡ 0
unfolding resolve_alert find_alert owns
resolve_alert-count_example =
    resolve_alert-count 9 4 4 6 sources (first ∷ second ∷ []) (to_resolved 9 first) refl
