-- ===== src/RateLimit/Window.antt =====
-- The fixed window that the counter in Redis stands for, and what it lets through.
use backupos.Base.{
  ℕ, ◌+◌, ◌-◌, ◌*◌, ◌≤◌, ◌<◌, ◌≡◌, ◌≢◌, refl, sym, ap, subst, ◌∙◌, inl, inr, Bool, true, false,
  Option, none, some, List, [], ◌∷◌, nat_eq, beq_refl, ltb, leb, eqb, ◌==◌, arith, All, All-imp,
  Bool-cases, if◌then◌else◌,
}
use backupos.Http.{Status}
use backupos.RateLimit.{
  Entry, alive, incremented, Redis, up, check, verdict, admitted, enforce_rate_limit,
}

-- The requests counted since the first of them.
pub record Window : Type 0 where
  pub opened : ℕ
  pub used : ℕ

-- A request at a time: it opens a window of 60 seconds, or counts in the one that is open.
unfoldable pub advance : ℕ → Option Window → Window
advance now none = record { opened = now; used = 1 }
advance now (some w) =
    if ltb now (w.opened + 60)
    then record w { used = w.used + 1 }
    else record { opened = now; used = 1 }

-- Whether each request is let through: the first `rpm` of each window are.
unfoldable pub allowed : ℕ → List ℕ → Option Window → List Bool
allowed rpm [] w = []
allowed rpm (now ∷ times) w =
    leb (advance now w).used rpm ∷ allowed rpm times (some (advance now w))

abbrev pub is_admitted : Option Status → Bool
is_admitted none = true
is_admitted (some status) = false

-- The times of the requests of one tenant.
unfoldable pub times_of : ℕ → List (ℕ × ℕ) → List ℕ
times_of tenant_id [] = []
times_of tenant_id ((now, t) ∷ requests) =
    let rest = times_of tenant_id requests in if t == tenant_id then now ∷ rest else rest

abbrev pub window_entry : Option Window → Option Entry
window_entry none = none
window_entry (some w) = some (record { count = w.used; expires_at = some (w.opened + 60) })

-- A window has a request in it.
abbrev pub IsOpen : Option Window → Type 0
IsOpen none = Unit
IsOpen (some w) = 1 ≤ w.used

pub advance-IsOpen : (now : ℕ) (w : Option Window) → IsOpen (some (advance now w))
unfolding advance
advance-IsOpen now none = omega arith
advance-IsOpen now (some w) = ground arith

module _ (R : Redis) where
  open R use {State, entry, incr, expire, incr_count, incr_entry, incr_other}
  open R use {expire_entry, expire_other}

  -- The requests `(time, tenant)` of all tenants, and the answers to those of one of them.
  unfoldable pub answers : ℕ → ℕ → List (ℕ × ℕ) → State → List Bool
  answers rpm tenant_id [] s = []
  answers rpm tenant_id ((now, t) ∷ requests) s =
      let (result, after) = enforce_rate_limit R (some rpm) up now t s in
      let rest = answers rpm tenant_id requests after in
      if t == tenant_id then is_admitted result ∷ rest else rest

  -- A key that is not there, or no longer, is set to 1 for 60 seconds.
  pub check_opens :
      (rpm now t : ℕ) (s : State)
      → alive now (entry s t) ≡ none
      → (check R rpm up now t s).0 ≡ verdict R rpm 1
        × (entry (check R rpm up now t s).1 t
            ≡ some (record { count = 1; expires_at = some (now + 60) }))
  unfolding check
  check_opens rpm now t s e =
      let count = incr_count now t s ∙ ap (λ o. (incremented o).count) e in
      let held = incr_entry now t s ∙ ap (λ o. some (incremented o)) e in
      rw count (refl, expire_entry now t 60 _ _ held)

  -- A key that is there counts one more.
  pub check_counts :
      (rpm now t : ℕ) (s : State) (old : Entry)
      → alive now (entry s t) ≡ some old
      → 1 ≤ old.count
      → (check R rpm up now t s).0 ≡ verdict R rpm (old.count + 1)
        × (entry (check R rpm up now t s).1 t ≡ some (record old { count = old.count + 1 }))
  unfolding check
  check_counts rpm now t s old e pos =
      let count = incr_count now t s ∙ ap (λ o. (incremented o).count) e in
      let held = incr_entry now t s ∙ ap (λ o. some (incremented o)) e in
      let more : eqb (old.count + 1) 1 ≡ false = ground arith in rw count (rw more (refl, held))

  -- What a check does, told by the window that the key stands for.
  pub check-advance :
      (rpm now t : ℕ) (s : State) (w : Option Window)
      → entry s t ≡ window_entry w
      → IsOpen w
      → (check R rpm up now t s).0 ≡ verdict R rpm (advance now w).used
        × (entry (check R rpm up now t s).1 t ≡ window_entry (some (advance now w)))
  unfolding advance
  check-advance rpm now t s none e pos = check_opens rpm now t s (ap (alive now) e)
  check-advance rpm now t s (some w) e pos = elim (Bool-cases (ltb now (w.opened + 60))) [
    | inl early ↦ rw early (check_counts rpm now t s _ (ap (alive now) e ∙ rw early refl) pos)
    | inr late ↦ rw late (check_opens rpm now t s (ap (alive now) e ∙ rw late refl))
  ]

  pub check_other :
      (rpm now t other : ℕ) (s : State)
      → other ≢ t
      → entry (check R rpm up now t s).1 other ≡ entry s other
  unfolding check
  check_other rpm now t other s ne = elim (Bool-cases (eqb (incr now t s).0 1)) [
    | inl first ↦ rw first (expire_other now t 60 other _ ne ∙ incr_other now t other s ne)
    | inr more ↦ rw more (incr_other now t other s ne)
  ]

  pub admitted-verdict :
      (rpm count : ℕ) → is_admitted (admitted R (verdict R rpm count)) ≡ leb count rpm
  unfolding admitted
  admitted-verdict rpm count = ground arith

  -- With Redis up, where the tenant's key is not there or has its deadline, the requests of the
  -- tenant that get through are those that a fixed window of 60 seconds lets through, whatever
  -- requests of other tenants come between.
  pub answers-allowed :
      (rpm tenant_id : ℕ) (requests : List (ℕ × ℕ)) (s : State) (w : Option Window)
      → entry s tenant_id ≡ window_entry w
      → IsOpen w
      → answers rpm tenant_id requests s ≡ allowed rpm (times_of tenant_id requests) w
  unfolding answers allowed times_of enforce_rate_limit
  answers-allowed rpm tenant_id [] s w e pos = refl
  answers-allowed rpm tenant_id ((now, t) ∷ requests) s w e pos =
      elim (Bool-cases (t == tenant_id)) [
        | inl same ↦
            let told = check-advance rpm now tenant_id s w e pos in
            let rest =
              answers-allowed rpm tenant_id requests _ (some (advance now w)) told.1
                (advance-IsOpen now w) in
            subst
              (λ u.
                answers rpm tenant_id ((now, u) ∷ requests) s
                ≡ allowed rpm (times_of tenant_id ((now, u) ∷ requests)) w)
              (sym ((nat_eq.same_iff t tenant_id).0 same))
              (rw (beq_refl tenant_id) (
                rw (told.0, rest)
                  (ap (λ b. b ∷ allowed rpm (times_of tenant_id requests) (some (advance now w)))
                    (admitted-verdict rpm (advance now w).used))))
        | inr other ↦
            let ne : tenant_id ≢ t = λ e. ground (arith, other, e) in
            rw other (
              answers-allowed rpm tenant_id requests _ w (check_other rpm now t tenant_id s ne ∙ e)
                pos)
      ]

-- How many requests get through.
unfoldable pub admissions : List Bool → ℕ
admissions [] = 0
admissions (b ∷ bs) = (if b then 1 else 0) + admissions bs

module _ (rpm : ℕ) where
  admissions-step :
      (now : ℕ) (times : List ℕ) (w : Option Window)
      → admissions (allowed rpm (now ∷ times) w)
        ≡ (if leb (advance now w).used rpm then 1 else 0)
          + admissions (allowed rpm times (some (advance now w)))
  unfolding allowed admissions
  admissions-step now times w = refl

  -- In a window that stays open.
  within :
      (times : List ℕ) (w : Window)
      → All (λ t. t < w.opened + 60) times
      → admissions (allowed rpm times (some w)) ≤ rpm - w.used
  unfolding advance allowed admissions
  within [] w h = omega arith
  within (now ∷ times) w h =
      let rest = within times (record w { used = w.used + 1 }) h.1 in ground (arith, h.0, rest)

  fresh_bound :
      (a now : ℕ) (times : List ℕ)
      → a ≤ now
      → All (λ t. (a ≤ t) × (t < a + 60)) times
      → (if leb 1 rpm then 1 else 0)
          + admissions (allowed rpm times (some (record { opened = now; used = 1 })))
        ≤ rpm
  fresh_bound a now times h span =
      let rest =
        within times (record { opened = now; used = 1 })
          (All-imp _ _ times (λ t k. omega (arith, h, k.0, k.1)) span) in
      ground (arith, rest)

  some_bound :
      (a : ℕ) (times : List ℕ) (w : Window)
      → All (λ t. (a ≤ t) × (t < a + 60)) times
      → admissions (allowed rpm times (some w)) ≤ (rpm - w.used) + rpm
  unfolding allowed admissions advance
  some_bound a [] w h = omega arith
  some_bound a (now ∷ times) w h =
      let renewed = fresh_bound a now times h.0.0 h.1 in
      let counted = some_bound a times (record w { used = w.used + 1 }) h.1 in
      ground (arith, renewed, counted)

  allowed_bound :
      (a : ℕ) (times : List ℕ) (w : Option Window)
      → All (λ t. (a ≤ t) × (t < a + 60)) times
      → admissions (allowed rpm times w) ≤ 2 * rpm
  unfolding allowed admissions advance
  allowed_bound a times (some w) h = omega (arith, some_bound a times w h)
  allowed_bound a [] none h = omega arith
  allowed_bound a (now ∷ times) none h = omega (arith, fresh_bound a now times h.0.0 h.1)

module _ (R : Redis) where
  open R use {State, entry}

  -- With Redis up, a tenant whose key is not there or has its deadline gets at most twice the limit
  -- of requests through in any 60 seconds.
  pub answers_bound :
      (rpm tenant_id a : ℕ) (requests : List (ℕ × ℕ)) (s : State) (w : Option Window)
      → entry s tenant_id ≡ window_entry w
      → IsOpen w
      → All (λ t. (a ≤ t) × (t < a + 60)) (times_of tenant_id requests)
      → admissions (answers R rpm tenant_id requests s) ≤ 2 * rpm
  answers_bound rpm tenant_id a requests s w e pos span =
      rw (answers-allowed R rpm tenant_id requests s w e pos)
        (allowed_bound rpm a (times_of tenant_id requests) w span)
