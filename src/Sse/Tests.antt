-- ===== src/Sse/Tests.antt =====
-- The theorems on internal/sse/hub.go at a hub with two topics.
use routewerk.Prelude.{ℕ, ◌≡◌, refl, not, ◌&&◌, List, [], ◌∷◌, some, false, arith}
use routewerk.Sse.Hub.{
  Hub, new, Call, subscribes, unsubscribes, publishes, receives, closes, run, update, is_registered,
  send, send_all, publish,
}
use routewerk.Sse.Safe.{IsSafe, run-IsSafe}
use routewerk.Sse.Delivery.{offered, publish-buffer}

-- A subscriber leaves twice, and the hub is closed twice.
abbrev calls : List (Call ℕ)
calls =
    subscribes "comp:1"
    ∷ subscribes "comp:2"
    ∷ publishes "comp:1" 7
    ∷ receives 0
    ∷ unsubscribes "comp:1" 0
    ∷ unsubscribes "comp:1" 0
    ∷ closes
    ∷ closes
    ∷ subscribes "comp:1"
    ∷ publishes "comp:1" 8
    ∷ []

run-IsSafe_example : (h : Hub ℕ) × (run calls new ≡ some h) × IsSafe h
run-IsSafe_example = run-IsSafe calls

abbrev one_subscriber : Hub ℕ
one_subscriber = record {
  subscribers = ("comp:1", 0) ∷ [];
  is_closed = false;
  channels = λ ch. record { buffer = []; is_closed = false };
  next = 1;
}

one_subscriber-IsSafe : IsSafe one_subscriber
one_subscriber-IsSafe = record {
  distinct = (tt, tt);
  open_entries = ((refl, omega arith), tt);
  bounded = λ ch. omega arith;
  closed_empty = λ e. cc;
}

abbrev after_publish : Hub ℕ
after_publish = record one_subscriber {
  channels = update one_subscriber.channels 0 (record { buffer = 7 ∷ []; is_closed = false });
}

published : publish "comp:1" 7 one_subscriber ≡ some after_publish
unfolding publish send_all send
published = refl

publish-buffer_example :
    (after_publish.channels 0).buffer
    ≡ offered "comp:1" 7 0
        (not one_subscriber.is_closed && is_registered "comp:1" 0 one_subscriber.subscribers)
        (one_subscriber.channels 0).buffer
publish-buffer_example =
    publish-buffer "comp:1" 7 0 one_subscriber after_publish one_subscriber-IsSafe published
