-- ===== src/Events/Tests.antt =====
-- The theorem on internal/event/memory.go at a bus with a subscriber in the request and one outside.
use routewerk.Prelude.{ℕ, true, false, List, [], ◌∷◌}
use routewerk.Events.Bus.{new_memory_bus, Step, subscribes, begins, advances, takes, finishes, run}
use routewerk.Events.Delivery.{IsDelivered, run-IsDelivered}

abbrev steps : List (Step ℕ ℕ)
steps =
    subscribes "tick.logged" 1 true
    ∷ subscribes "tick.logged" 2 false
    ∷ begins (record { event_type = "tick.logged"; payload = 5 })
    ∷ advances 0
    ∷ advances 0
    ∷ takes
    ∷ advances 0
    ∷ finishes 0
    ∷ []

run-IsDelivered_example : IsDelivered steps (run steps new_memory_bus)
run-IsDelivered_example = run-IsDelivered steps
