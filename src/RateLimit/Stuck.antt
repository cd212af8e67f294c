-- ===== src/RateLimit/Stuck.antt =====
-- What a tenant waits for: the end of its window, which comes, and the end of a window whose
-- EXPIRE has failed, which does not.
use backupos.Base.{
  ℕ, ◌+◌, ◌-◌, ◌≤◌, ◌≡◌, ◌≢◌, refl, sym, ap, subst, ◌∙◌, inl, inr, Bool, Option, none, some, List,
  [], ◌∷◌, nat_eq, beq_refl, leb, ◌==◌, arith, All, Bool-cases,
}
use backupos.RateLimit.{
  Entry, alive, incremented, Redis, up, expire_fails, check, admitted, enforce_rate_limit,
}
use backupos.RateLimit.Window.{
  Window, IsOpen, advance, advance-IsOpen, times_of, window_entry, answers, admissions,
  check-advance, check_counts, check_other, admitted-verdict,
}

-- The key is there for good after its first count `c`: what gets through then.
unfoldable pub forever : ℕ → ℕ → List ℕ → List Bool
forever rpm c [] = []
forever rpm c (now ∷ times) = leb (c + 1) rpm ∷ forever rpm (c + 1) times

forever_bound : (rpm c : ℕ) (times : List ℕ) → admissions (forever rpm c times) ≤ rpm - c
unfolding forever admissions
forever_bound rpm c [] = omega arith
forever_bound rpm c (now ∷ times) = ground (arith, forever_bound rpm (c + 1) times)

abbrev undying : ℕ → Entry
undying c = record { count = c; expires_at = none }

-- A window that was opened by a time.
abbrev OpenedBy : ℕ → Option Window → Type 0
OpenedBy last none = Unit
OpenedBy last (some w) = w.opened ≤ last

advance-OpenedBy :
    (last now : ℕ) (w : Option Window)
    → now ≤ last
    → OpenedBy last w
    → OpenedBy last (some (advance now w))
unfolding advance
advance-OpenedBy last now none h k = h
advance-OpenedBy last now (some w) h k = ground arith

-- 60 seconds later a window begins.
advance_late :
    (last now : ℕ) (w : Option Window)
    → last + 60 ≤ now
    → OpenedBy last w
    → (advance now w).used ≡ 1
unfolding advance
advance_late last now none h k = refl
advance_late last now (some w) h k = ground arith

module _ (R : Redis) where
  open R use {State, entry, incr_count, incr_entry}

  -- The state behind the requests `(time, tenant)`.
  unfoldable pub served : ℕ → List (ℕ × ℕ) → State → State
  served rpm [] s = s
  served rpm ((now, t) ∷ requests) s =
      served rpm requests (enforce_rate_limit R (some rpm) up now t s).1

  served-entry :
      (rpm tenant_id last : ℕ) (requests : List (ℕ × ℕ)) (s : State) (w : Option Window)
      → entry s tenant_id ≡ window_entry w
      → IsOpen w
      → OpenedBy last w
      → All (λ (r : ℕ × ℕ). r.0 ≤ last) requests
      → (after : Option Window) × (entry (served rpm requests s) tenant_id ≡ window_entry after)
        × IsOpen after
        × OpenedBy last after
  unfolding served enforce_rate_limit
  served-entry rpm tenant_id last [] s w e pos by h = (w, e, pos, by)
  served-entry rpm tenant_id last ((now, t) ∷ requests) s w e pos by h =
      elim (Bool-cases (t == tenant_id)) [
        | inl same ↦
            let own = (nat_eq.same_iff t tenant_id).0 same in
            let told = check-advance R rpm now t s w (ap (entry s) own ∙ e) pos in
            served-entry rpm tenant_id last requests _ (some (advance now w))
              (ap (entry _) (sym own) ∙ told.1) (advance-IsOpen now w)
              (advance-OpenedBy last now w h.0 by) h.1
        | inr other ↦
            let ne : tenant_id ≢ t = λ q. ground (arith, other, q) in
            served-entry rpm tenant_id last requests _ w
              (check_other R rpm now t tenant_id s ne ∙ e) pos by h.1
      ]

  -- With Redis up and a limit of at least 1, a tenant whose key was not there before some requests
  -- gets a request through once 60 seconds have passed since the last of them, whoever they came
  -- from and however many were rejected.
  pub enforce-reopens :
      (rpm tenant_id last now : ℕ) (requests : List (ℕ × ℕ)) (s : State)
      → 1 ≤ rpm
      → entry s tenant_id ≡ none
      → All (λ (r : ℕ × ℕ). r.0 ≤ last) requests
      → last + 60 ≤ now
      → (enforce_rate_limit R (some rpm) up now tenant_id (served rpm requests s)).0 ≡ none
  unfolding enforce_rate_limit admitted
  enforce-reopens rpm tenant_id last now requests s pos e h late =
      let (w, held, is_open, by) = served-entry rpm tenant_id last requests s none e tt tt h in
      let told = check-advance R rpm now tenant_id (served rpm requests s) w held is_open in
      rw (told.0, advance_late last now w late by) (ground arith)

  answers-forever :
      (rpm tenant_id c : ℕ) (requests : List (ℕ × ℕ)) (s : State)
      → 1 ≤ c
      → entry s tenant_id ≡ some (undying c)
      → answers R rpm tenant_id requests s ≡ forever rpm c (times_of tenant_id requests)
  unfolding answers times_of forever enforce_rate_limit
  answers-forever rpm tenant_id c [] s pos e = refl
  answers-forever rpm tenant_id c ((now, t) ∷ requests) s pos e =
      elim (Bool-cases (t == tenant_id)) [
        | inl same ↦
            let told = check_counts R rpm now tenant_id s (undying c) (ap (alive now) e) pos in
            let rest = answers-forever rpm tenant_id (c + 1) requests _ (omega arith) told.1 in
            subst
              (λ u.
                answers R rpm tenant_id ((now, u) ∷ requests) s
                ≡ forever rpm c (times_of tenant_id ((now, u) ∷ requests)))
              (sym ((nat_eq.same_iff t tenant_id).0 same))
              (rw (beq_refl tenant_id) (
                rw (told.0, rest)
                  (ap (λ b. b ∷ forever rpm (c + 1) (times_of tenant_id requests))
                    (admitted-verdict R rpm (c + 1)))))
        | inr other ↦
            let ne : tenant_id ≢ t = λ q. ground (arith, other, q) in
            rw other (
              answers-forever rpm tenant_id c requests _ pos
                (check_other R rpm now t tenant_id s ne ∙ e))
      ]

  fails-entry :
      (rpm now t : ℕ) (s : State)
      → alive now (entry s t) ≡ none
      → entry (check R rpm expire_fails now t s).1 t ≡ some (undying 1)
  unfolding check
  fails-entry rpm now t s e = incr_entry now t s ∙ ap (λ o. some (incremented o)) e

  -- Where the tenant's key is not there and EXPIRE fails for its next request, the tenant gets at
  -- most `rpm - 1` requests through from then on, with Redis up, however long it waits.
  pub answers-stuck :
      (rpm tenant_id now : ℕ) (requests : List (ℕ × ℕ)) (s : State)
      → alive now (entry s tenant_id) ≡ none
      → admissions (
          answers R rpm tenant_id requests
            (enforce_rate_limit R (some rpm) expire_fails now tenant_id s).1)
        ≤ rpm - 1
  unfolding enforce_rate_limit
  answers-stuck rpm tenant_id now requests s e =
      rw
        (answers-forever rpm tenant_id 1 requests _ (omega arith)
          (fails-entry rpm now tenant_id s e))
        (forever_bound rpm 1 (times_of tenant_id requests))
