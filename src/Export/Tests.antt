-- ===== src/Export/Tests.antt =====
-- A log of two rows, and the same log with one more.
use backupos.Base.{
  ℕ, ◌≡◌, ◌↔◌, refl, true, false, none, some, List, [], ◌∷◌, ◌++◌, bytes_beq, bytes_eq, nat_eq,
  codes,
}
use backupos.Restore.{digits}
use backupos.Export.{
  AuditEvent, Filters, join_lines, insert_event, sorted, rows_of, derive_key, sign_export,
  export_audit_log, verify_export_signature,
}
use backupos.Export.Sample.{plain}
use backupos.Export.Signature.{verify-export}

abbrev event : ℕ → ℕ → AuditEvent
event n tenant_id = record {
  id = n;
  tenant_id = tenant_id;
  event_type = n ∷ [];
  resource_type = none;
  resource_id = none;
  actor = none;
  detail = none;
  created_at = n;
}

abbrev all : Filters
all = record { since = none; until = none; event_type = none; limit = 10 }

abbrev until_three : Filters
until_three = record all { until = some 3 }

abbrev table : List AuditEvent
table = event 3 6 ∷ event 2 7 ∷ event 1 6 ∷ []

abbrev later : List AuditEvent
later = table ++ event 4 6 ∷ []

-- Without `until`, a new row ends the validity of the signature; with it, the rows are the same.
new_row :
    (rows_of plain 6 all later ≡ event 1 6 ∷ event 3 6 ∷ event 4 6 ∷ [])
    × (rows_of plain 6 until_three later ≡ rows_of plain 6 until_three table)
unfolding rows_of sorted insert_event
new_row = (refl, refl)

stale_signature :
    let exported = export_audit_log plain (codes "s") 50 6 all table in
    (verify_export_signature plain (codes "s") exported.signature 6 all later).valid ≡ false
unfolding export_audit_log verify_export_signature sign_export derive_key rows_of sorted
    insert_event join_lines bytes_beq digits
stale_signature = refl

verify-export_example :
    let exported = export_audit_log plain (codes "s") 50 6 until_three table in
    ((verify_export_signature plain (codes "s") exported.signature 6 until_three later).valid
      ≡ true)
    ↔ (rows_of plain 6 until_three later ≡ exported.events)
verify-export_example =
    verify-export plain (codes "s") 50 6 until_three table later (λ key a b e. e)
