-- ===== src/Export/Signature.antt =====
-- What the signature of an export vouches for.
use backupos.Base.{
  ℕ, ◌≡◌, ◌↔◌, refl, ap, sym, true, List, [], ◌∷◌, ◌++◌, Bytes, bytes_eq, bytes_beq_iff, nat_eq,
  All, map, codes,
}
use backupos.Export.{
  AuditEvent, Filters, ExportEnv, rows_of, derive_key, sign_export, export_audit_log,
  verify_export_signature,
}
use backupos.Export.Lines.{IsLine, join_lines_injective}

append_inj : (x a b : Bytes) → x ++ a ≡ x ++ b → a ≡ b
append_inj [] a b e = e
append_inj (c ∷ x) a b e = append_inj x a b cc

module _ (env : ExportEnv) where
  open env use {
    canonical, canonical_one_line, canonical_nonempty, canonical_injective, hmac, hmac_hex,
  }

  lines_ok : (events : List AuditEvent) → All IsLine (map canonical events)
  lines_ok [] = tt
  lines_ok (e ∷ events) = ((canonical_one_line e, canonical_nonempty e), lines_ok events)

  map-canonical : (xs ys : List AuditEvent) → map canonical xs ≡ map canonical ys → xs ≡ ys
  map-canonical [] [] e = refl
  map-canonical [] (y ∷ ys) e = absurd (cc e)
  map-canonical (x ∷ xs) [] e = absurd (cc e)
  map-canonical (x ∷ xs) (y ∷ ys) e =
      let first = canonical_injective x y cc in let rest = map-canonical xs ys cc in cc

  -- HMAC-SHA256 has no collisions under one key.
  abbrev pub IsCollisionFree : Type 0
  IsCollisionFree = (key a b : Bytes) → hmac_hex key a ≡ hmac_hex key b → a ≡ b

  sign_export_injective :
      (export_secret : Bytes) (tenant_id : ℕ) (xs ys : List AuditEvent)
      → IsCollisionFree
      → sign_export env export_secret tenant_id xs ≡ sign_export env export_secret tenant_id ys
      → xs ≡ ys
  unfolding sign_export
  sign_export_injective export_secret tenant_id xs ys free e = map-canonical xs ys (
      join_lines_injective (map canonical xs) (map canonical ys) (lines_ok xs) (lines_ok ys)
        (free (derive_key env export_secret tenant_id) _ _ (append_inj (codes "sha256=") _ _ e)))

  -- Where HMAC-SHA256 has no collisions under one key, the signature of an export is valid for
  -- another state of the audit log, with the same filters, exactly when the filters select the rows
  -- there that were exported.
  pub verify-export :
      (export_secret : Bytes) (now tenant_id : ℕ) (filters : Filters)
      (table later : List AuditEvent)
      → IsCollisionFree
      → let exported = export_audit_log env export_secret now tenant_id filters table in
        ((verify_export_signature env export_secret exported.signature tenant_id filters
            later).valid
          ≡ true)
        ↔ (rows_of env tenant_id filters later ≡ exported.events)
  unfolding export_audit_log verify_export_signature
  verify-export export_secret now tenant_id filters table later free =
      let old = rows_of env tenant_id filters table in
      let new = rows_of env tenant_id filters later in
      let test =
        bytes_beq_iff (sign_export env export_secret tenant_id old)
          (sign_export env export_secret tenant_id new) in
      (
        λ valid. sym (sign_export_injective export_secret tenant_id old new free (test.0 valid)),
        λ same. test.1 (ap (sign_export env export_secret tenant_id) (sym same)),
      )
