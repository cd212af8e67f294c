-- ===== src/Export.antt =====
-- app/api/compliance.py: the signed export of the audit log, and the check of its signature. The
-- rows are those of `audit_logs` with all columns. LIKE, the JSON text of a row and HMAC-SHA256 are
-- parameters.
pub mod Lines
pub mod Signature
pub mod Sample
mod Tests
use backupos.Base.{
  ℕ, ◌+◌, ◌≡◌, ◌≢◌, Bool, true, false, ◌&&◌, Option, none, some, List, [], ◌∷◌, ◌++◌, Bytes,
  bytes_eq, codes, nat_eq, ltb, leb, ◌==◌, length, take, map, contains, if◌then◌else◌,
}
use backupos.Restore.{digits}

-- `AuditEventExport`
pub record AuditEvent : Type 0 where
  pub id : ℕ
  pub tenant_id : ℕ
  pub event_type : Bytes
  pub resource_type : Option Bytes
  pub resource_id : Option Bytes
  pub actor : Option Bytes
  pub detail : Option Bytes
  pub created_at : ℕ

-- The parameters of both queries.
pub record Filters : Type 0 where
  pub since : Option ℕ
  pub until : Option ℕ
  pub event_type : Option Bytes
  pub limit : ℕ

pub record AuditExport : Type 0 where
  pub tenant_id : ℕ
  pub exported_at : ℕ
  pub event_count : ℕ
  pub since : Option ℕ
  pub until : Option ℕ
  pub events : List AuditEvent
  pub signature : Bytes
  pub algorithm : Bytes

pub record Verification : Type 0 where
  pub valid : Bool
  pub event_count : ℕ
  pub algorithm : Bytes

-- What the module calls. `canonical` is `json.dumps` of a row with ASCII only, which escapes line
-- breaks; `hmac` gives a digest, and `hmac_hex` its hexadecimal form.
pub record ExportEnv : Type 0 where
  pub like : Bytes → Bytes → Bool
  pub canonical : AuditEvent → Bytes
  pub canonical_one_line : (e : AuditEvent) → contains (canonical e) 10 ≡ false
  pub canonical_nonempty : (e : AuditEvent) → canonical e ≢ []
  pub canonical_injective : (e f : AuditEvent) → canonical e ≡ canonical f → e ≡ f
  pub hmac : Bytes → Bytes → Bytes
  pub hmac_hex : Bytes → Bytes → Bytes

-- `"\n".join(…)`
unfoldable pub join_lines : List Bytes → Bytes
join_lines [] = []
join_lines (line ∷ []) = line
join_lines (line ∷ next ∷ lines) = let rest = join_lines (next ∷ lines) in line ++ 10 ∷ rest

abbrev pub not_before : Option ℕ → ℕ → Bool
not_before none t = true
not_before (some since) t = leb since t

abbrev pub not_after : Option ℕ → ℕ → Bool
not_after none t = true
not_after (some until) t = leb t until

-- `.order_by(AuditLog.id.asc())`
unfoldable pub insert_event : AuditEvent → List AuditEvent → List AuditEvent
insert_event e [] = e ∷ []
insert_event e (f ∷ events) =
    let rest = insert_event e events in if ltb f.id e.id then f ∷ rest else e ∷ f ∷ events

module _ (env : ExportEnv) where
  open env use {like, canonical, hmac, hmac_hex}

  -- An empty prefix is no filter.
  abbrev pub of_type : Option Bytes → Bytes → Bool
  of_type none event_type = true
  of_type (some []) event_type = true
  of_type (some (c ∷ prefix)) event_type = like (c ∷ prefix ++ codes "%") event_type

  abbrev pub selects : ℕ → Filters → AuditEvent → Bool
  selects tenant_id filters e =
      (e.tenant_id == tenant_id && not_before filters.since e.created_at)
      && not_after filters.until e.created_at
      && of_type filters.event_type e.event_type

  unfoldable pub sorted : ℕ → Filters → List AuditEvent → List AuditEvent
  sorted tenant_id filters [] = []
  sorted tenant_id filters (e ∷ table) =
      let rest = sorted tenant_id filters table in
      if selects tenant_id filters e then insert_event e rest else rest

  -- `rows`
  unfoldable pub rows_of : ℕ → Filters → List AuditEvent → List AuditEvent
  rows_of tenant_id filters table = take filters.limit (sorted tenant_id filters table)

  module _ (export_secret : Bytes) where
    -- `_derive_key`
    unfoldable pub derive_key : ℕ → Bytes
    derive_key tenant_id = hmac export_secret (digits tenant_id tenant_id)

    -- `_sign_export`
    unfoldable pub sign_export : ℕ → List AuditEvent → Bytes
    sign_export tenant_id events =
        codes "sha256=" ++ hmac_hex (derive_key tenant_id) (join_lines (map canonical events))

    unfoldable pub export_audit_log : ℕ → ℕ → Filters → List AuditEvent → AuditExport
    export_audit_log now tenant_id filters table =
        let events = rows_of tenant_id filters table in
        record {
          tenant_id = tenant_id;
          exported_at = now;
          event_count = length events;
          since = filters.since;
          until = filters.until;
          events = events;
          signature = sign_export tenant_id events;
          algorithm = codes "HMAC-SHA256";
        }

    unfoldable pub verify_export_signature : Bytes → ℕ → Filters → List AuditEvent → Verification
    verify_export_signature signature tenant_id filters table =
        let events = rows_of tenant_id filters table in
        record {
          valid = signature == sign_export tenant_id events;
          event_count = length events;
          algorithm = codes "HMAC-SHA256";
        }
