-- ===== src/Middleware/Tests.antt =====
-- The theorem on the limiters at one visitor who comes again.
use memory_system.Prelude.{ℕ, ◌≤◌, Text, text, List, [], ◌∷◌, length, arith}
use memory_system.Middleware.RateLimit.{Visitor, max_visitors, limiter_for}
use memory_system.Middleware.RateLimit.Bounded.{After, limiter_for-After}

abbrev one_visitor : List (Text × Visitor ℕ)
one_visitor = (text "ip:10.0.0.1", record { limiter = 7; last_seen = 100 }) ∷ []

one_visitor-length : length one_visitor ≤ max_visitors
one_visitor-length = omega arith

limiter_for-After_example :
    After one_visitor
      (text "ip:10.0.0.2")
      (limiter_for (λ u. 9) 300 200 (text "ip:10.0.0.2") one_visitor)
limiter_for-After_example =
    limiter_for-After (λ u. 9) 300 200 (text "ip:10.0.0.2") one_visitor one_visitor-length
