-- ===== src/RateLimit/Tests.antt =====
-- Two tenants with a limit of 2 requests a minute.
use backupos.Base.{ℕ, ◌-◌, ◌≤◌, ◌≡◌, refl, true, false, none, some, List, [], ◌∷◌, arith}
use backupos.Base.Dict.{lookup, insert}
use backupos.RateLimit.{up, expire_fails, check, enforce_rate_limit, admitted}
use backupos.RateLimit.Window.{answers, allowed, times_of, admissions, answers-allowed}
use backupos.RateLimit.Stuck.{served, enforce-reopens, answers-stuck}
use backupos.RateLimit.Sample.{keys, sample_incr, sample_expire}

abbrev requests : List (ℕ × ℕ)
requests = (10, 6) ∷ (11, 7) ∷ (12, 6) ∷ (13, 6) ∷ (70, 6) ∷ []

abbrev burst : List (ℕ × ℕ)
burst = (11, 6) ∷ (12, 6) ∷ (70, 6) ∷ []

third_waits : answers keys 2 6 requests [] ≡ true ∷ true ∷ false ∷ true ∷ []
unfolding answers enforce_rate_limit check admitted sample_incr sample_expire lookup insert
third_waits = refl

answers-allowed_example : answers keys 2 6 requests [] ≡ allowed 2 (times_of 6 requests) none
unfolding lookup
answers-allowed_example = answers-allowed keys 2 6 requests [] none refl tt

enforce-reopens_example :
    (enforce_rate_limit keys (some 2) up 130 6 (served keys 2 requests [])).0 ≡ none
unfolding lookup
enforce-reopens_example =
    enforce-reopens keys 2 6 70 130 requests [] (omega arith) refl (omega arith) (omega arith)

answers-stuck_example :
    admissions (
      answers keys 2 6
        ((1000, 6) ∷ (9000, 6) ∷ [])
        (enforce_rate_limit keys (some 2) expire_fails 10 6 []).1)
    ≤ 2 - 1
unfolding lookup
answers-stuck_example = answers-stuck keys 2 6 10 ((1000, 6) ∷ (9000, 6) ∷ []) [] refl
