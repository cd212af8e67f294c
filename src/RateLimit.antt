-- ===== src/RateLimit.antt =====
-- app/core/rate_limit.py: the limit on the requests of a tenant. Redis is a parameter: its state,
-- its commands INCR and EXPIRE, each with the outcome that the network gives it, and the laws of
-- them that the documentation of Redis states. Time is a number of seconds.
pub mod Window
pub mod Stuck
pub mod Sample
mod Tests
use backupos.Base.{
  ℕ, ◌+◌, ◌≡◌, ◌<◌, ◌≤◌, ◌≢◌, Bool, true, false, Option, none, some, ltb, eqb, if◌then◌else◌,
}
use backupos.Http.{Status, too_many_requests}

-- What a key of Redis holds at a time: a count, and the time from which it is gone, if it has one.
pub record Entry : Type 0 where
  pub count : ℕ
  pub expires_at : Option ℕ

-- The count and the deadline of a key that is still there.
abbrev pub alive : ℕ → Option Entry → Option Entry
alive now none = none
alive now (some e) = elim e.expires_at [
  | none ↦ some e
  | some t ↦ if ltb now t then some e else none
]

-- INCR makes a key with the count 1 and no deadline where there is none, and else adds 1.
abbrev pub incremented : Option Entry → Entry
incremented none = record { count = 1; expires_at = none }
incremented (some e) = record e { count = e.count + 1 }

-- Keys are the tenants' ids, of `rate_limit:{tenant_id}`.
pub record Redis : Type 1 where
  pub State : Type 0
  pub entry : State → ℕ → Option Entry
  pub incr : ℕ → ℕ → State → ℕ × State
  pub expire : ℕ → ℕ → ℕ → State → State
  pub incr_count :
      (now key : ℕ) (s : State) → (incr now key s).0 ≡ (incremented (alive now (entry s key))).count
  pub incr_entry :
      (now key : ℕ) (s : State)
      → entry (incr now key s).1 key ≡ some (incremented (alive now (entry s key)))
  pub incr_other :
      (now key other : ℕ) (s : State) → other ≢ key → entry (incr now key s).1 other ≡ entry s other
  pub expire_entry :
      (now key ttl : ℕ) (s : State) (e : Entry)
      → entry s key ≡ some e
      → entry (expire now key ttl s) key ≡ some (record e { expires_at = some (now + ttl) })
  pub expire_other :
      (now key ttl other : ℕ) (s : State)
      → other ≢ key
      → entry (expire now key ttl s) other ≡ entry s other

-- Which of the two commands of a check reach Redis; the others raise.
pub data Network : Type 0 where
  up incr_fails expire_fails : Network

-- How a check ends.
pub data Check : Type 0 where
  passes rejects raises : Check

module _ (R : Redis) where
  open R use {State, incr, expire}

  -- The verdict on a count.
  abbrev pub verdict : ℕ → ℕ → Check
  verdict rpm count = if ltb rpm count then rejects else passes

  -- `RateLimiter.check`, with `self.rpm`.
  unfoldable pub check : ℕ → Network → ℕ → ℕ → State → Check × State
  check rpm incr_fails now tenant_id s = (raises, s)
  check rpm up now tenant_id s =
      let (count, after) = incr now tenant_id s in
      (verdict rpm count, if eqb count 1 then expire now tenant_id 60 after else after)
  check rpm expire_fails now tenant_id s =
      let (count, after) = incr now tenant_id s in
      (if eqb count 1 then raises else verdict rpm count, after)

  -- What a check means for the request: an exception of Redis lets it through.
  unfoldable pub admitted : Check → Option Status
  admitted passes = none
  admitted rejects = some too_many_requests
  admitted raises = none

  -- `enforce_rate_limit`: the exception that it raises, if it does. `rate_limiter` is `none`
  -- before the application has started, and holds the limit afterwards.
  unfoldable pub enforce_rate_limit : Option ℕ → Network → ℕ → ℕ → State → Option Status × State
  enforce_rate_limit none net now tenant_id s = (none, s)
  enforce_rate_limit (some rpm) net now tenant_id s =
      let (result, after) = check rpm net now tenant_id s in (admitted result, after)
