-- ===== src/RateLimit/Tests.antt =====
-- The theorems on the rate limiter of internal/middleware/security.go at a limit of two in ten.
use routewerk.Prelude.{◌≤◌, ◌-◌, refl, List, [], ◌∷◌, arith}
use routewerk.Prelude.Int.{pos, pos_part}
use routewerk.Prelude.Maps.{lookup}
use routewerk.RateLimit.Limiter.{
  ClientWindow, RateLimiter, new_rate_limiter, Event, request, tick, run,
}
use routewerk.RateLimit.Bounded.{IsBounded, run-IsBounded}
use routewerk.RateLimit.Budget.{admitted, admitted-le}

abbrev events : List Event
events = request "anna" 1 ∷ request "bert" 2 ∷ tick 3 ∷ request "anna" 4 ∷ request "anna" 5 ∷ []

run-IsBounded_example : IsBounded (run events (new_rate_limiter (pos 2) 10))
run-IsBounded_example = run-IsBounded (pos 2) 10 events

abbrev anna_window : ClientWindow
anna_window = record { request_count = 1; window_start = 0 }

abbrev limiter : RateLimiter
limiter = record (new_rate_limiter (pos 2) 10) { clients = ("anna", anna_window) ∷ [] }

admitted-le_example : admitted "anna" events limiter ≤ pos_part (pos 2) - 1
unfolding lookup
admitted-le_example =
    admitted-le "anna" anna_window limiter events refl refl (omega arith)
      (omega arith, (omega arith, (omega arith, (omega arith, (omega arith, tt))))) (omega arith)
