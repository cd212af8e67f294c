-- ===== src/Alerts/Resolution.antt =====
-- What resolving an alert does to the lists of alerts.
use backupos.Base.{
  ℕ, ◌+◌, ◌≡◌, refl, inl, inr, List, [], ◌∷◌, nat_eq, ◌==◌, arith, Option-cases, if◌then◌else◌,
}
use backupos.Http.{answer, failed_ne}
use backupos.Snapshots.{DataSource}
use backupos.Alerts.{
  AlertRow, insert_row, rows_where, is_open_for, find_alert, to_resolved, set_resolved,
  resolve_alert,
}

module _ {Float : Type 0} where
  -- How often an id is among some alerts.
  abbrev pub count : ℕ → List (AlertRow Float) → ℕ
  count n [] = 0
  count n (r ∷ rows) = (if r.id == n then 1 else 0) + count n rows

  count-insert_row :
      (n : ℕ) (r : AlertRow Float) (rows : List (AlertRow Float))
      → count n (insert_row r rows) ≡ (if r.id == n then 1 else 0) + count n rows
  unfolding insert_row
  count-insert_row n r [] = refl
  count-insert_row n r (q ∷ rows) = ground (arith, count-insert_row n r rows)

  count-set_resolved :
      (now n k tenant_id : ℕ) (sources : List DataSource) (rows : List (AlertRow Float))
      → count k (rows_where (is_open_for tenant_id sources) (set_resolved now n rows))
        ≡ (if k == n then 0 else count k (rows_where (is_open_for tenant_id sources) rows))
  unfolding rows_where set_resolved to_resolved
  count-set_resolved now n k tenant_id sources [] = ground arith
  count-set_resolved now n k tenant_id sources (r ∷ rows) =
      let open_rows = rows_where (is_open_for tenant_id sources) rows in
      let left_rows = rows_where (is_open_for tenant_id sources) (set_resolved now n rows) in
      ground (
        arith,
        count-set_resolved now n k tenant_id sources rows,
        count-insert_row k r open_rows,
        count-insert_row k r left_rows,
      )

  -- Where resolving an alert is answered, the list of the tenant's alerts that are not resolved
  -- has each alert as often as before, but for the one with this id, which is not in it.
  pub resolve_alert-count :
      (now n k tenant_id : ℕ) (sources : List DataSource) (rows : List (AlertRow Float))
      (r : AlertRow Float)
      → (resolve_alert now tenant_id sources n rows).0 ≡ answer r
      → let after = (resolve_alert now tenant_id sources n rows).1 in
        count k (rows_where (is_open_for tenant_id sources) after)
        ≡ (if k == n then 0 else count k (rows_where (is_open_for tenant_id sources) rows))
  unfolding resolve_alert
  resolve_alert-count now n k tenant_id sources rows r done =
      elim (Option-cases (find_alert n tenant_id sources rows)) [
        | inl missing ↦ absurd (failed_ne _ r (rw (missing, resolve_alert) at done))
        | inr (s, found) ↦
            rw (found, resolve_alert) (count-set_resolved now n k tenant_id sources rows)
      ]
