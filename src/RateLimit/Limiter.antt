-- ===== src/RateLimit/Limiter.antt =====
-- RateLimiter (internal/middleware/security.go). Times and durations are numbers of nanoseconds, and a
-- request is one step, since it holds the lock throughout. Where Go ranges over the map, the entries
-- are taken in the order of the list: of two windows that began at the same time the first is evicted.
use routewerk.Prelude.{
  ℕ, ◌+◌, ◌*◌, ◌%◌, String, str_eq, Bool, true, not, ◌&&◌, List, [], ◌∷◌, none, some, ltb, leb,
  ◌==◌, length, keep, if◌then◌else◌,
}
use routewerk.Prelude.Int.{ℤ, pos, ltb_ℤ}
use routewerk.Prelude.Maps.{lookup, insert, delete}

-- A request count below 2^63.
pub record ClientWindow : Type 0 where
  pub request_count : ℕ
  pub window_start : ℕ

pub record RateLimiter : Type 0 where
  pub clients : List (String × ClientWindow)
  pub limit : ℤ
  pub window : ℕ
  pub clean_ttl : ℕ
  pub max_clients : ℕ
  pub insert_count : ℕ

abbrev pub opportunistic_cleanup_every : ℕ
opportunistic_cleanup_every = 128

abbrev pub default_max_clients : ℕ
default_max_clients = 10_000

abbrev pub new_rate_limiter : ℤ → ℕ → RateLimiter
new_rate_limiter limit window = record {
  clients = [];
  limit = limit;
  window = window;
  clean_ttl = window * 2;
  max_clients = default_max_clients;
  insert_count = 0;
}

-- `now.Sub(start) > d`
abbrev pub is_past : ℕ → ℕ → ℕ → Bool
is_past now start d = ltb (start + d) now

-- cleanupLocked
unfoldable pub cleanup_locked : ℕ → RateLimiter → RateLimiter
cleanup_locked now rl = record rl {
  clients = keep (λ e. not (is_past now e.1.window_start rl.clean_ttl)) rl.clients;
}

-- The loop of evictOldest after its first round, `best` being the oldest entry so far.
unfoldable pub oldest_from :
    String × ClientWindow → List (String × ClientWindow) → String × ClientWindow
oldest_from best [] = best
oldest_from best (e ∷ rest) =
    let kept = oldest_from best rest in
    let replaced = oldest_from e rest in
    if ltb e.1.window_start best.1.window_start then replaced else kept

unfoldable pub without_oldest : List (String × ClientWindow) → List (String × ClientWindow)
without_oldest [] = []
without_oldest (e ∷ rest) =
    let key = (oldest_from e rest).0 in
    if not (str_eq key "") then delete key (e ∷ rest) else e ∷ rest

-- evictOldest
unfoldable pub evict_oldest : RateLimiter → RateLimiter
evict_oldest rl = record rl { clients = without_oldest rl.clients }

-- `rl.insertCount++`, which is a uint64, and the sweep at every 128th new key.
unfoldable pub sweep_sometimes : ℕ → RateLimiter → RateLimiter
sweep_sometimes now rl =
    let n = (rl.insert_count + 1) % 18_446_744_073_709_551_616 in
    let counted = record rl { insert_count = n } in
    if (n % opportunistic_cleanup_every) == 0 then cleanup_locked now counted else counted

-- The part for a key that is not in the map: sweep from time to time, and make room.
unfoldable pub make_room : ℕ → RateLimiter → RateLimiter
make_room now rl =
    let swept = sweep_sometimes now rl in
    if ltb 0 swept.max_clients && leb swept.max_clients (length swept.clients)
    then evict_oldest swept
    else swept

abbrev pub start_window : String → ℕ → RateLimiter → RateLimiter
start_window key now rl = record rl {
  clients = insert key (record { request_count = 1; window_start = now }) rl.clients;
}

abbrev pub count_request : String → ClientWindow → RateLimiter → RateLimiter
count_request key cw rl = record rl {
  clients = insert key (record cw { request_count = cw.request_count + 1 }) rl.clients;
}

-- LimitByKey for a key that is not empty: whether the request goes on, or is answered by 429.
unfoldable pub admit : String → ℕ → RateLimiter → RateLimiter × Bool
admit key now rl = elim (lookup key rl.clients) [
  | none ↦ (start_window key now (make_room now rl), true)
  | some cw ↦
      if is_past now cw.window_start rl.window
      then (start_window key now rl, true)
      else (count_request key cw rl, not (ltb_ℤ rl.limit (pos (cw.request_count + 1))))
]

unfoldable pub limit_by_key : String → ℕ → RateLimiter → RateLimiter × Bool
limit_by_key key now rl = if str_eq key "" then (rl, true) else admit key now rl

-- A request with a key, or a tick of the sweep.
pub data Event : Type 0 where
  request : String → ℕ → Event
  tick : ℕ → Event

abbrev pub step : Event → RateLimiter → RateLimiter
step (request key now) rl = (limit_by_key key now rl).0
step (tick now) rl = cleanup_locked now rl

unfoldable pub run : List Event → RateLimiter → RateLimiter
run [] rl = rl
run (e ∷ events) rl = run events (step e rl)
