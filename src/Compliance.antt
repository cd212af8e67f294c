-- ===== src/Compliance.antt =====
-- app/services/compliance_service.py. The scores are whole numbers, from which the code only
-- subtracts before it takes the maximum with 0: subtraction on ℕ gives the same. An average is
-- left as a sum and a count. A violation is its rule; the texts are left out.
pub mod Scores
mod Tests
use backupos.Base.{
  ℕ, ◌+◌, ◌-◌, Bool, true, false, not, ◌&&◌, Option, none, some, List, [], ◌∷◌, ◌++◌, ltb, length,
  if◌then◌else◌,
}
use backupos.Models.{AnomalyAlert, AlertSeverity, low, medium, high, critical}

-- `DataClassification` of app/models/source.py
pub data Classification : Type 0 where
  public internal confidential pii financial : Classification

-- The columns of `BackupPolicy` that are scored.
pub record ScoredPolicy : Type 0 where
  pub retention_days : ℕ
  pub rpo_minutes : ℕ
  pub frequency_minutes : ℕ
  pub require_checksum : Bool
  pub require_dedup : Bool

pub data Violation : Type 0 where
  soc2_no_policy soc2_retention soc2_checksum soc2_rpo soc2_critical_alerts : Violation
  hipaa_no_policy hipaa_checksum hipaa_dedup hipaa_retention : Violation
  pci_no_policy pci_retention pci_frequency : Violation

-- A score so far, with the violations found.
pub record Score : Type 0 where
  pub points : ℕ
  pub violations : List Violation

-- `if broken: score -= points; violations.append(...)`
unfoldable pub deduct : Bool → ℕ → Violation → Score → Score
deduct broken points v s =
    if broken then record { points = s.points - points; violations = s.violations ++ v ∷ [] } else s

abbrev pub full_score : Score
full_score = record { points = 100; violations = [] }

abbrev pub is_critical : AlertSeverity → Bool
is_critical low = false
is_critical medium = false
is_critical high = false
is_critical critical = true

unfoldable pub any_critical : {Float : Type 0} → List (AnomalyAlert Float) → Bool
any_critical [] = false
any_critical (a ∷ alerts) = if is_critical a.severity then true else any_critical alerts

unfoldable pub soc2_policy : Option ScoredPolicy → Score → Score
soc2_policy none s = deduct true 50 soc2_no_policy s
soc2_policy (some p) s = deduct (ltb 1440 p.rpo_minutes) 25 soc2_rpo (
    deduct (not p.require_checksum) 25 soc2_checksum
      (deduct (ltb p.retention_days 30) 25 soc2_retention s))

unfoldable pub score_soc2 :
    {Float : Type 0} → Option ScoredPolicy → List (AnomalyAlert Float) → Score
score_soc2 policy alerts =
    deduct (any_critical alerts) 25 soc2_critical_alerts (soc2_policy policy full_score)

unfoldable pub score_hipaa : Option ScoredPolicy → Score
score_hipaa none = deduct true 100 hipaa_no_policy full_score
score_hipaa (some p) = deduct (ltb p.retention_days 365) 34 hipaa_retention (
    deduct (not p.require_dedup) 33 hipaa_dedup
      (deduct (not p.require_checksum) 33 hipaa_checksum full_score))

unfoldable pub score_pci : Option ScoredPolicy → Score
score_pci none = deduct true 100 pci_no_policy full_score
score_pci (some p) =
    deduct (ltb 1440 p.frequency_minutes) 50 pci_frequency
      (deduct (ltb p.retention_days 365) 50 pci_retention full_score)

abbrev pub hipaa_applicable : Classification → Bool
hipaa_applicable pii = true
hipaa_applicable _ = false

abbrev pub pci_applicable : Classification → Bool
pci_applicable financial = true
pci_applicable _ = false

-- `overall` is `total / count`.
pub record ComplianceScore : Type 0 where
  pub total : ℕ
  pub count : ℕ
  pub soc2_score : ℕ
  pub hipaa_score : ℕ
  pub pci_score : ℕ
  pub violations : List Violation

-- The score of a framework that may not apply.
abbrev pub if_applicable : Bool → Score → Score
if_applicable b s = if b then s else full_score

unfoldable pub score_source_compliance :
    {Float : Type 0}
    → Classification
    → Option ScoredPolicy
    → List (AnomalyAlert Float)
    → ComplianceScore
score_source_compliance classification policy alerts =
    let soc2 = score_soc2 policy alerts in
    let hipaa = if_applicable (hipaa_applicable classification) (score_hipaa policy) in
    let pci = if_applicable (pci_applicable classification) (score_pci policy) in
    record {
      total =
          soc2.points
          + (if hipaa_applicable classification then hipaa.points else 0)
          + (if pci_applicable classification then pci.points else 0);
      count =
          1
          + (if hipaa_applicable classification then 1 else 0)
          + (if pci_applicable classification then 1 else 0);
      soc2_score = soc2.points;
      hipaa_score = hipaa.points;
      pci_score = pci.points;
      violations = soc2.violations ++ hipaa.violations ++ pci.violations;
    }

unfoldable pub total_violations : List ComplianceScore → ℕ
total_violations [] = 0
total_violations (s ∷ scores) = length s.violations + total_violations scores

-- The critical alerts of a tenant that are not resolved.
unfoldable pub critical_count : {Float : Type 0} → List (AnomalyAlert Float) → ℕ
critical_count [] = 0
critical_count (a ∷ alerts) =
    (if is_critical a.severity && not a.resolved then 1 else 0) + critical_count alerts
