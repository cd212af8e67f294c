-- ===== src/Compliance/Scores.antt =====
-- What the scores of a source say.
use backupos.Base.{
  ℕ, ◌+◌, ◌*◌, ◌≤◌, ◌≡◌, ◌↔◌, refl, Bool, true, false, Option, none, some, List, [], ◌∷◌, ◌++◌,
  arith, length, length-append,
}
use backupos.Models.{AnomalyAlert}
use backupos.Compliance.{
  Classification, public, internal, confidential, pii, financial, ScoredPolicy, Violation, Score,
  deduct, full_score, soc2_policy, score_soc2, score_hipaa, score_pci, score_source_compliance,
}

-- No score above 100, and the full score exactly where no rule was broken.
pub record IsFair (s : Score) : Type 0 where
  pub bounded : s.points ≤ 100
  pub full : (s.points ≡ 100) ↔ (length s.violations ≡ 0)

full-IsFair : IsFair full_score
full-IsFair = record { bounded = omega arith; full = (λ e. refl, λ e. refl) }

deduct-IsFair :
    (broken : Bool) (points : ℕ) (v : Violation) (s : Score)
    → 1 ≤ points
    → IsFair s
    → IsFair (deduct broken points v s)
unfolding deduct
deduct-IsFair false points v s p fair = fair
deduct-IsFair true points v s p fair = record {
  bounded = omega (arith, fair.bounded);
  full = (
    λ e. absurd (omega (arith, fair.bounded)),
    λ e. absurd (omega (arith, length-append s.violations (v ∷ []))),
  );
}

soc2-IsFair :
    {Float : Type 0} (policy : Option ScoredPolicy) (alerts : List (AnomalyAlert Float))
    → IsFair (score_soc2 policy alerts)
unfolding score_soc2 soc2_policy
soc2-IsFair none alerts =
    deduct-IsFair _ 25 _ _ (omega arith)
      (deduct-IsFair true 50 _ full_score (omega arith) full-IsFair)
soc2-IsFair (some p) alerts = deduct-IsFair _ 25 _ _ (omega arith) (
    deduct-IsFair _ 25 _ _ (omega arith)
      (deduct-IsFair _ 25 _ _ (omega arith) (deduct-IsFair _ 25 _ _ (omega arith) full-IsFair)))

hipaa-IsFair : (policy : Option ScoredPolicy) → IsFair (score_hipaa policy)
unfolding score_hipaa
hipaa-IsFair none = deduct-IsFair true 100 _ full_score (omega arith) full-IsFair
hipaa-IsFair (some p) =
    deduct-IsFair _ 34 _ _ (omega arith)
      (deduct-IsFair _ 33 _ _ (omega arith) (deduct-IsFair _ 33 _ _ (omega arith) full-IsFair))

pci-IsFair : (policy : Option ScoredPolicy) → IsFair (score_pci policy)
unfolding score_pci
pci-IsFair none = deduct-IsFair true 100 _ full_score (omega arith) full-IsFair
pci-IsFair (some p) =
    deduct-IsFair _ 50 _ _ (omega arith) (deduct-IsFair _ 50 _ _ (omega arith) full-IsFair)

-- One framework applies.
alone_fair :
    (s : Score)
    → IsFair s
    → (s.points + 0 + 0 ≤ 100 * (1 + 0 + 0))
      × ((s.points + 0 + 0 ≡ 100 * (1 + 0 + 0)) ↔ (length (s.violations ++ [] ++ []) ≡ 0))
alone_fair s f = ground (
  arith,
  f.bounded,
  f.full.0,
  f.full.1,
  length-append s.violations [],
  length-append (s.violations ++ []) [],
)

-- Two apply, of which the second has no rules behind it.
both_fair :
    (s t : Score)
    → IsFair s
    → IsFair t
    → (s.points + t.points + 0 ≤ 100 * (1 + 1 + 0))
      × ((s.points + t.points + 0 ≡ 100 * (1 + 1 + 0))
          ↔ (length (s.violations ++ t.violations ++ []) ≡ 0))
both_fair s t f g = ground (
  arith,
  f.bounded,
  g.bounded,
  f.full.0,
  f.full.1,
  g.full.0,
  g.full.1,
  length-append s.violations t.violations,
  length-append (s.violations ++ t.violations) [],
)

last_fair :
    (s t : Score)
    → IsFair s
    → IsFair t
    → (s.points + 0 + t.points ≤ 100 * (1 + 0 + 1))
      × ((s.points + 0 + t.points ≡ 100 * (1 + 0 + 1))
          ↔ (length (s.violations ++ [] ++ t.violations) ≡ 0))
last_fair s t f g = ground (
  arith,
  f.bounded,
  g.bounded,
  f.full.0,
  f.full.1,
  g.full.0,
  g.full.1,
  length-append s.violations [],
  length-append (s.violations ++ []) t.violations,
)

-- The overall score of a source is at most 100, and is 100 exactly where the source has no
-- violation of a framework that applies to it.
pub score_full :
    {Float : Type 0} (classification : Classification) (policy : Option ScoredPolicy)
    (alerts : List (AnomalyAlert Float))
    → let score = score_source_compliance classification policy alerts in
      (score.total ≤ 100 * score.count)
      × ((score.total ≡ 100 * score.count) ↔ (length score.violations ≡ 0))
unfolding score_source_compliance
score_full public policy alerts = alone_fair (score_soc2 policy alerts) (soc2-IsFair policy alerts)
score_full internal policy alerts =
    alone_fair (score_soc2 policy alerts) (soc2-IsFair policy alerts)
score_full confidential policy alerts =
    alone_fair (score_soc2 policy alerts) (soc2-IsFair policy alerts)
score_full pii policy alerts =
    both_fair (score_soc2 policy alerts) (score_hipaa policy) (soc2-IsFair policy alerts)
      (hipaa-IsFair policy)
score_full financial policy alerts =
    last_fair (score_soc2 policy alerts) (score_pci policy) (soc2-IsFair policy alerts)
      (pci-IsFair policy)
