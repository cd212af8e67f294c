-- ===== src/Compliance/Tests.antt =====
-- A source with a weak policy.
use backupos.Base.{ℕ, ◌≡◌, refl, true, some, [], ◌∷◌}
use backupos.Compliance.{
  pii, ScoredPolicy, soc2_retention, hipaa_retention, ComplianceScore, score_source_compliance,
  score_soc2, soc2_policy, score_hipaa, any_critical, deduct,
}

abbrev weak : ScoredPolicy
weak = record {
  retention_days = 7;
  rpo_minutes = 60;
  frequency_minutes = 60;
  require_checksum = true;
  require_dedup = true;
}

abbrev weak_score : ComplianceScore
weak_score = score_source_compliance {Float = ℕ} pii (some weak) []

weak_violations :
    (weak_score.violations ≡ soc2_retention ∷ hipaa_retention ∷ []) × (weak_score.total ≡ 141)
unfolding score_source_compliance score_soc2 soc2_policy score_hipaa any_critical deduct
weak_violations = (refl, refl)
