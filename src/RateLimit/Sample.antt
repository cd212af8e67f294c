-- ===== src/RateLimit/Sample.antt =====
-- Redis as a dictionary of keys, which has the laws.
use backupos.Base.{ℕ, ◌+◌, ◌≡◌, ◌≢◌, refl, Option, none, some, nat_eq, beq_refl, arith}
use backupos.Base.Dict.{Dict, lookup, insert, lookup-insert}
use backupos.RateLimit.{Entry, alive, incremented, Redis}

abbrev pub Keys : Type 0
Keys = Dict ℕ Entry

abbrev renewed : ℕ → Option Entry → Keys → ℕ → Keys
renewed key none s t = s
renewed key (some e) s t = insert key (record e { expires_at = some t }) s

unfoldable pub sample_incr : ℕ → ℕ → Keys → ℕ × Keys
sample_incr now key s = let e = incremented (alive now (lookup key s)) in (e.count, insert key e s)

unfoldable pub sample_expire : ℕ → ℕ → ℕ → Keys → Keys
sample_expire now key ttl s = renewed key (lookup key s) s (now + ttl)

lookup-insert_self : (k : ℕ) (e : Entry) (s : Keys) → lookup k (insert k e s) ≡ some e
lookup-insert_self k e s = rw (lookup-insert, beq_refl k) refl

lookup-insert_other :
    (k j : ℕ) (e : Entry) (s : Keys) → j ≢ k → lookup j (insert k e s) ≡ lookup j s
lookup-insert_other k j e s ne = rw lookup-insert (ground (arith, ne))

pub expire_self :
    (now key ttl : ℕ) (s : Keys) (e : Entry)
    → lookup key s ≡ some e
    → lookup key (sample_expire now key ttl s) ≡ some (record e { expires_at = some (now + ttl) })
unfolding sample_expire
expire_self now key ttl s e h = rw (h, renewed) (lookup-insert_self key _ s)

expire_at_other :
    (now key ttl other : ℕ) (s : Keys) (o : Option Entry)
    → other ≢ key
    → lookup other (renewed key o s (now + ttl)) ≡ lookup other s
expire_at_other now key ttl other s none ne = refl
expire_at_other now key ttl other s (some e) ne = lookup-insert_other key other _ s ne

pub incr-count :
    (now key : ℕ) (s : Keys)
    → (sample_incr now key s).0 ≡ (incremented (alive now (lookup key s))).count
unfolding sample_incr
incr-count now key s = refl

pub incr_self :
    (now key : ℕ) (s : Keys)
    → lookup key (sample_incr now key s).1 ≡ some (incremented (alive now (lookup key s)))
unfolding sample_incr
incr_self now key s = lookup-insert_self key _ s

pub incr-elsewhere :
    (now key other : ℕ) (s : Keys)
    → other ≢ key
    → lookup other (sample_incr now key s).1 ≡ lookup other s
unfolding sample_incr
incr-elsewhere now key other s ne = lookup-insert_other key other _ s ne

pub expire-elsewhere :
    (now key ttl other : ℕ) (s : Keys)
    → other ≢ key
    → lookup other (sample_expire now key ttl s) ≡ lookup other s
unfolding sample_expire
expire-elsewhere now key ttl other s ne = expire_at_other now key ttl other s (lookup key s) ne

abbrev pub keys : Redis
keys = record {
  State = Keys;
  entry = λ s key. lookup key s;
  incr = sample_incr;
  expire = sample_expire;
  incr_count = incr-count;
  incr_entry = incr_self;
  incr_other = incr-elsewhere;
  expire_entry = expire_self;
  expire_other = expire-elsewhere;
}
