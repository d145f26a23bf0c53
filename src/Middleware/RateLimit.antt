-- ===== src/Middleware/RateLimit.antt =====
-- The limiter of each key of internal/middleware/ratelimit.go. The token bucket of golang.org/x/time/rate
-- is a parameter, of which only the making is used here. A time is a number of nanoseconds; each call of
-- time.Now is an argument. The mutex makes each call one step.
pub mod Bounded
use memory_system.Prelude.{
  ℕ, ◌-◌, Text, text, text_eq, Bool, true, false, ◌||◌, Option, none, some, List, [], ◌∷◌, length,
  ltb, leb, if◌then◌else◌, find, set,
}

abbrev pub max_visitors : ℕ
max_visitors = 8192

-- 10 minutes
abbrev pub visitor_ttl : ℕ
visitor_ttl = 600000000000

unfoldable pub rate_limit_exempt : Text → Bool
unfolding text_eq
rate_limit_exempt path = text_eq path (text "/~/health")

pub record Visitor (L : Type 0) : Type 0 where
  pub limiter : L
  pub last_seen : ℕ

abbrev pub Visitors : Type 0 → Type 0
Visitors L = List (Text × Visitor L)

module _ {L : Type 0} where
  -- v.lastSeen.Before(cutoff)
  abbrev pub is_idle : ℕ → Visitor L → Bool
  is_idle now v = ltb v.last_seen (now - visitor_ttl)

  unfoldable pub keep_active : ℕ → Visitors L → Visitors L
  keep_active now [] = []
  keep_active now ((k, v) ∷ m) =
      let rest = keep_active now m in if is_idle now v then rest else (k, v) ∷ rest

  unfoldable pub any_idle : ℕ → Visitors L → Bool
  any_idle now [] = false
  any_idle now ((k, v) ∷ m) = is_idle now v || any_idle now m

  unfoldable pub evict_locked : ℕ → Visitors L → Visitors L
  unfolding keep_active any_idle
  evict_locked now m = if any_idle now m then keep_active now m else []

  -- the limiter of the key, and the visitors after; `evicting` is the clock when the eviction runs
  unfoldable pub limiter_for : (Unit {0} → L) → ℕ → ℕ → Text → Visitors L → L × Visitors L
  unfolding find set evict_locked
  limiter_for new_limiter now evicting key m = elim (find key m) [
    | some v ↦ (v.limiter, set key record { limiter = v.limiter; last_seen = now } m)
    | none ↦
        let made = new_limiter tt in
        let rest = if leb max_visitors (length m) then evict_locked evicting m else m in
        (made, set key record { limiter = made; last_seen = now } rest)
  ]
