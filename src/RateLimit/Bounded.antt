-- ===== src/RateLimit/Bounded.antt =====
-- The map of the rate limiter (internal/middleware/security.go) does not outgrow its cap.
use mathlib.Core.Path.{subst}
use routewerk.Prelude.{
  ℕ, ◌+◌, ◌%◌, ◌≤◌, ◌<◌, ◌≡◌, refl, sym, inl, inr, String, str_eq, false, not, List, [], ◌∷◌, some,
  arith, leb, ◌==◌, length, All-keep, Bool-cases, Option-cases,
}
use routewerk.Prelude.Int.{ℤ}
use routewerk.Prelude.Maps.{lookup, insert}
use routewerk.RateLimit.Limiter.{
  ClientWindow, RateLimiter, default_max_clients, new_rate_limiter, is_past, cleanup_locked,
  oldest_from, without_oldest, evict_oldest, sweep_sometimes, make_room, start_window,
  count_request, admit, limit_by_key, Event, request, tick, step, run,
}
use routewerk.RateLimit.Entries.{
  Entries, AreNamed, length-keep-le, length-insert-le, length-insert, insert-AreNamed,
  delete-AreNamed, length-delete-lt, has-oldest_from, named_has,
}

pub record IsBounded (rl : RateLimiter) : Type 0 where
  pub named : AreNamed rl.clients
  pub small : length rl.clients ≤ rl.max_clients
  pub capped : rl.max_clients ≡ default_max_clients

-- The same with room for one more.
record HasRoom (rl : RateLimiter) : Type 0 where
  pub still_named : AreNamed rl.clients
  pub smaller : length rl.clients < rl.max_clients
  pub room_capped : rl.max_clients ≡ default_max_clients

cleanup_locked-IsBounded :
    (now : ℕ) (rl : RateLimiter) → IsBounded rl → IsBounded (cleanup_locked now rl)
unfolding cleanup_locked
cleanup_locked-IsBounded now rl b = record {
  named = All-keep _ _ rl.clients b.named;
  small = omega (
    arith,
    length-keep-le (λ e. not (is_past now e.1.window_start rl.clean_ttl)) rl.clients,
    b.small,
  );
  capped = b.capped;
}

without_oldest-room :
    (entries : Entries)
    → AreNamed entries
    → 0 < length entries
    → AreNamed (without_oldest entries) × (length (without_oldest entries) < length entries)
unfolding without_oldest
without_oldest-room [] n p = absurd (omega arith)
without_oldest-room (e ∷ rest) n p =
    let h = has-oldest_from e rest in
    let k = named_has (oldest_from e rest).0 (e ∷ rest) n h in
    rw (k, without_oldest)
      (
        delete-AreNamed (oldest_from e rest).0 (e ∷ rest) n,
        length-delete-lt (oldest_from e rest).0 (e ∷ rest) h,
      )

because : (rl rl' : RateLimiter) → rl ≡ rl' → IsBounded rl' → IsBounded rl
because rl rl' e b = subst IsBounded (sym e) b

abbrev counted : ℕ → RateLimiter → RateLimiter
counted n rl = record rl { insert_count = n }

counted-IsBounded : (n : ℕ) (rl : RateLimiter) → IsBounded rl → IsBounded (counted n rl)
counted-IsBounded n rl b = record { named = b.named; small = b.small; capped = b.capped }

sweep_sometimes-IsBounded :
    (now : ℕ) (rl : RateLimiter) → IsBounded rl → IsBounded (sweep_sometimes now rl)
unfolding sweep_sometimes
sweep_sometimes-IsBounded now rl b =
    let n = (rl.insert_count + 1) % 18_446_744_073_709_551_616 in
    let k = counted-IsBounded n rl b in
    elim (Bool-cases ((n % 128) == 0)) [
      | inl c ↦
          because _ (cleanup_locked now (counted n rl)) (ground (arith, c))
            (cleanup_locked-IsBounded now (counted n rl) k)
      | inr c ↦ because _ (counted n rl) (ground (arith, c)) k
    ]

-- To make room for a new key leaves fewer entries than the cap.
make_room-HasRoom : (now : ℕ) (rl : RateLimiter) → IsBounded rl → HasRoom (make_room now rl)
unfolding make_room evict_oldest
make_room-HasRoom now rl b =
    let s : RateLimiter = sweep_sometimes now rl in
    let k = sweep_sometimes-IsBounded now rl b in
    elim (Bool-cases (leb s.max_clients (length s.clients))) [
      | inl l ↦
          let r = without_oldest-room s.clients k.named (ground (arith, l, k.capped)) in
          room _ (evict_oldest s) (ground (arith, l, k.capped)) (record {
            still_named = r.0;
            smaller = omega (arith, r.1, k.small);
            room_capped = k.capped;
          })
      | inr l ↦
          room _ s (ground (arith, l, k.capped))
            (record { still_named = k.named; smaller = ground (arith, l); room_capped = k.capped })
    ]
  where
    room : (x y : RateLimiter) → x ≡ y → HasRoom y → HasRoom x
    room x y e h = subst HasRoom (sym e) h

start_window-IsBounded :
    (key : String) (now : ℕ) (rl : RateLimiter)
    → str_eq key "" ≡ false
    → HasRoom rl
    → IsBounded (start_window key now rl)
start_window-IsBounded key now rl k h = record {
  named = insert-AreNamed key _ rl.clients k h.still_named;
  small = omega (
    arith,
    length-insert-le key (record { request_count = 1; window_start = now }) rl.clients,
    h.smaller,
  );
  capped = h.room_capped;
}

-- A key that is in the map is replaced in place.
replaced-IsBounded :
    (key : String) (cw old : ClientWindow) (rl : RateLimiter)
    → str_eq key "" ≡ false
    → lookup key rl.clients ≡ some old
    → IsBounded rl
    → IsBounded (record rl { clients = insert key cw rl.clients })
replaced-IsBounded key cw old rl k e b = record {
  named = insert-AreNamed key cw rl.clients k b.named;
  small = omega (arith, length-insert key cw old rl.clients e, b.small);
  capped = b.capped;
}

admit-IsBounded :
    (key : String) (now : ℕ) (rl : RateLimiter)
    → str_eq key "" ≡ false
    → IsBounded rl
    → IsBounded (admit key now rl).0
unfolding admit
admit-IsBounded key now rl k b = elim (Option-cases (lookup key rl.clients)) [
  | inl n ↦
      because _ (start_window key now (make_room now rl)) (ground (arith, n))
        (start_window-IsBounded key now (make_room now rl) k (make_room-HasRoom now rl b))
  | inr (cw, n) ↦ elim (Bool-cases (is_past now cw.window_start rl.window)) [
    | inl p ↦
        because _ (start_window key now rl) (ground (arith, n, p))
          (replaced-IsBounded key _ cw rl k n b)
    | inr p ↦
        because _ (count_request key cw rl) (ground (arith, n, p))
          (replaced-IsBounded key _ cw rl k n b)
  ]
]

step-IsBounded : (e : Event) (rl : RateLimiter) → IsBounded rl → IsBounded (step e rl)
unfolding limit_by_key
step-IsBounded (tick now) rl b = cleanup_locked-IsBounded now rl b
step-IsBounded (request key now) rl b = elim (Bool-cases (str_eq key "")) [
  | inl k ↦ because _ rl (ground (arith, k)) b
  | inr k ↦ because _ (admit key now rl).0 (ground (arith, k)) (admit-IsBounded key now rl k b)
]

run-IsBounded_from :
    (events : List Event) (rl : RateLimiter) → IsBounded rl → IsBounded (run events rl)
unfolding run
run-IsBounded_from [] rl b = b
run-IsBounded_from (e ∷ events) rl b = run-IsBounded_from events (step e rl) (step-IsBounded e rl b)

-- Whatever requests and sweeps a new limiter has seen, in whatever order and at whatever times, its map
-- holds no more than 10,000 entries, and none under the empty key.
pub run-IsBounded :
    (limit : ℤ) (window : ℕ) (events : List Event)
    → IsBounded (run events (new_rate_limiter limit window))
run-IsBounded limit window events =
    run-IsBounded_from events (new_rate_limiter limit window)
      (record { named = tt; small = omega arith; capped = refl })
