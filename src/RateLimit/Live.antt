-- ===== src/RateLimit/Live.antt =====
-- The window of one key while the rate limiter (internal/middleware/security.go) handles other events.
use mathlib.Core.Path.{subst}
use routewerk.Prelude.{
  ℕ, suc, ◌+◌, ◌%◌, ◌≤◌, ◌<◌, ◌≡◌, sym, ◌∙◌, inl, inr, String, str_eq, false, not, List, [], ◌∷◌,
  some, arith, ◌==◌, length, keep, Bool-cases, Option-cases,
}
use routewerk.Prelude.Int.{pos_part}
use routewerk.Prelude.Maps.{lookup, insert, lookup-insert}
use routewerk.RateLimit.Limiter.{
  ClientWindow, RateLimiter, is_past, cleanup_locked, sweep_sometimes, make_room, start_window,
  count_request, admit, limit_by_key,
}
use routewerk.RateLimit.Entries.{length-keep-le, length-insert-le, length-insert}

-- The window of a key is still there, with its start; the settings are as they were, and there is room.
pub record IsLive (key : String) (start count limit window room : ℕ) (rl : RateLimiter)
    : Type 0 where
  pub cw : ClientWindow
  pub present : lookup key rl.clients ≡ some cw
  pub started : cw.window_start ≡ start
  pub counted : cw.request_count ≡ count
  pub same_limit : pos_part rl.limit ≡ limit
  pub same_window : rl.window ≡ window
  pub ttl : window ≤ rl.clean_ttl
  pub fits : length rl.clients + room ≤ rl.max_clients

lookup-keep_live :
    (key : String) (now ttl : ℕ) (cw : ClientWindow) (entries : List (String × ClientWindow))
    → lookup key entries ≡ some cw
    → now ≤ cw.window_start + ttl
    → lookup key (keep (λ e. not (is_past now e.1.window_start ttl)) entries) ≡ some cw
unfolding lookup keep
lookup-keep_live key now ttl cw [] e l = e
lookup-keep_live key now ttl cw (x ∷ entries) e l = elim (Bool-cases (str_eq x.0 key)) [
  | inl t ↦
      let same : x.1 ≡ cw = ground (arith, e, t) in
      let live : is_past now x.1.window_start ttl ≡ false = ground (arith, same, l) in
      ground (arith, e, t, live)
  | inr t ↦ ground (arith, e, t, lookup-keep_live key now ttl cw entries (ground (arith, e, t)) l)
]

module _ (key : String) (start limit window : ℕ) where
  pub cleanup_locked-IsLive :
      (count now room : ℕ) (rl : RateLimiter)
      → now ≤ start + window
      → IsLive key start count limit window room rl
      → IsLive key start count limit window room (cleanup_locked now rl)
  unfolding cleanup_locked
  cleanup_locked-IsLive count now room rl l h = record {
    cw = h.cw;
    present =
        lookup-keep_live key now rl.clean_ttl h.cw rl.clients h.present
          (omega (arith, l, h.ttl, h.started));
    started = h.started;
    counted = h.counted;
    same_limit = h.same_limit;
    same_window = h.same_window;
    ttl = h.ttl;
    fits = omega (
      arith,
      h.fits,
      length-keep-le (λ e. not (is_past now e.1.window_start rl.clean_ttl)) rl.clients,
    );
  }

  moved :
      (count room : ℕ) (x y : RateLimiter)
      → x ≡ y
      → IsLive key start count limit window room y
      → IsLive key start count limit window room x
  moved count room x y e h = subst (IsLive key start count limit window room) (sym e) h

  counted_up :
      (count n room : ℕ) (rl : RateLimiter)
      → IsLive key start count limit window room rl
      → IsLive key start count limit window room (record rl { insert_count = n })
  counted_up count n room rl h = record {
    cw = h.cw;
    present = h.present;
    started = h.started;
    counted = h.counted;
    same_limit = h.same_limit;
    same_window = h.same_window;
    ttl = h.ttl;
    fits = h.fits;
  }

  sweep_sometimes-IsLive :
      (count now room : ℕ) (rl : RateLimiter)
      → now ≤ start + window
      → IsLive key start count limit window room rl
      → IsLive key start count limit window room (sweep_sometimes now rl)
  unfolding sweep_sometimes
  sweep_sometimes-IsLive count now room rl l h =
      let n = (rl.insert_count + 1) % 18_446_744_073_709_551_616 in
      let c : RateLimiter = record rl { insert_count = n } in
      elim (Bool-cases ((n % 128) == 0)) [
        | inl t ↦
            moved count room _ (cleanup_locked now c) (ground (arith, t))
              (cleanup_locked-IsLive count now room c l (counted_up count n room rl h))
        | inr t ↦ moved count room _ c (ground (arith, t)) (counted_up count n room rl h)
      ]

  -- While there is room, nothing is evicted.
  make_room-IsLive :
      (count now room : ℕ) (rl : RateLimiter)
      → now ≤ start + window
      → 0 < room
      → IsLive key start count limit window room rl
      → IsLive key start count limit window room (make_room now rl)
  unfolding make_room
  make_room-IsLive count now room rl l r h =
      let s : RateLimiter = sweep_sometimes now rl in
      let k = sweep_sometimes-IsLive count now room rl l h in
      moved count room _ s (ground (arith, k.fits, r)) k

  -- An entry of another key is added or replaced.
  insert-IsLive :
      (count room : ℕ) (k : String) (cw : ClientWindow) (rl : RateLimiter)
      → str_eq k key ≡ false
      → length (insert k cw rl.clients) + room ≤ rl.max_clients
      → IsLive key start count limit window room rl
      → IsLive key start count limit window room (record rl { clients = insert k cw rl.clients })
  insert-IsLive count room k cw rl d f h = record {
    cw = h.cw;
    present = lookup-insert k key cw rl.clients ∙ ground (arith, d, h.present);
    started = h.started;
    counted = h.counted;
    same_limit = h.same_limit;
    same_window = h.same_window;
    ttl = h.ttl;
    fits = f;
  }

  pub less_room :
      (count room : ℕ) (rl : RateLimiter)
      → IsLive key start count limit window (suc room) rl
      → IsLive key start count limit window room rl
  less_room count room rl h = record {
    cw = h.cw;
    present = h.present;
    started = h.started;
    counted = h.counted;
    same_limit = h.same_limit;
    same_window = h.same_window;
    ttl = h.ttl;
    fits = omega (arith, h.fits);
  }

  pub other-IsLive :
      (count now room : ℕ) (k : String) (rl : RateLimiter)
      → str_eq k key ≡ false
      → now ≤ start + window
      → IsLive key start count limit window (suc room) rl
      → IsLive key start count limit window room (limit_by_key k now rl).0
  unfolding limit_by_key admit
  other-IsLive count now room k rl d l h = elim (Bool-cases (str_eq k "")) [
    | inl z ↦ moved count room _ rl (ground (arith, z)) (less_room count room rl h)
    | inr z ↦ elim (Option-cases (lookup k rl.clients)) [
      | inl n ↦
          let r : RateLimiter = make_room now rl in
          let m = make_room-IsLive count now (suc room) rl l (omega arith) h in
          let cw : ClientWindow = record { request_count = 1; window_start = now } in
          moved count room _ (start_window k now r) (ground (arith, z, n)) (
            insert-IsLive count room k cw r d
              (omega (arith, length-insert-le k cw r.clients, m.fits)) (less_room count room r m))
      | inr (cw, n) ↦ elim (Bool-cases (is_past now cw.window_start rl.window)) [
        | inl p ↦
            let fresh : ClientWindow = record { request_count = 1; window_start = now } in
            moved count room _ (start_window k now rl) (ground (arith, z, n, p)) (
              insert-IsLive count room k fresh rl d
                (omega (arith, length-insert k fresh cw rl.clients n, h.fits))
                (less_room count room rl h))
        | inr p ↦
            let more : ClientWindow = record cw { request_count = cw.request_count + 1 } in
            moved count room _ (count_request k cw rl) (ground (arith, z, n, p)) (
              insert-IsLive count room k more rl d
                (omega (arith, length-insert k more cw rl.clients n, h.fits))
                (less_room count room rl h))
      ]
    ]
  ]
