-- ===== src/RateLimit/Budget.antt =====
-- How many requests of one key the rate limiter (internal/middleware/security.go) lets through.
use mathlib.Core.Path.{subst}
use routewerk.Prelude.{
  ℕ, suc, ◌+◌, ◌-◌, ◌≤◌, ◌≡◌, refl, sym, ap, ◌∙◌, inl, inr, String, str_eq, eq_iff, Bool, true,
  false, not, ◌&&◌, List, [], ◌∷◌, some, arith, length, Bool-cases, if◌then◌else◌,
}
use routewerk.Prelude.Int.{pos, pos_part, ltb_ℤ}
use routewerk.Prelude.Maps.{lookup, lookup-insert}
use routewerk.RateLimit.Limiter.{
  ClientWindow, RateLimiter, is_past, cleanup_locked, count_request, admit, limit_by_key, Event,
  request, tick,
}
use routewerk.RateLimit.Entries.{length-insert}
use routewerk.RateLimit.Live.{IsLive, cleanup_locked-IsLive, less_room, other-IsLive}

-- How many requests of a key go on.
unfoldable pub admitted : String → List Event → RateLimiter → ℕ
admitted key [] rl = 0
admitted key (tick now ∷ events) rl = admitted key events (cleanup_locked now rl)
admitted key (request k now ∷ events) rl =
    (if str_eq k key && (limit_by_key k now rl).1 then 1 else 0)
    + admitted key events (limit_by_key k now rl).0

-- Nothing happens later than a time.
abbrev pub AreBefore : ℕ → List Event → Type 0
AreBefore end [] = Unit {0}
AreBefore end (tick now ∷ events) = (now ≤ end) × AreBefore end events
AreBefore end (request k now ∷ events) = (now ≤ end) × AreBefore end events

module _ (key : String) (start limit window : ℕ) where
  -- A request of the key itself, inside its window.
  own-IsLive :
      (count now room : ℕ) (rl : RateLimiter)
      → str_eq key "" ≡ false
      → now ≤ start + window
      → IsLive key start count limit window (suc room) rl
      → IsLive key start (count + 1) limit window room (limit_by_key key now rl).0
        × ((limit_by_key key now rl).1 ≡ true → count + 1 ≤ limit)
  unfolding limit_by_key admit
  own-IsLive count now room rl z l h =
      let inside : is_past now h.cw.window_start rl.window ≡ false =
        ground (arith, l, h.started, h.same_window) in
      let more : ClientWindow = record h.cw { request_count = h.cw.request_count + 1 } in
      let e : limit_by_key key now rl
          ≡ (count_request key h.cw rl, not (ltb_ℤ rl.limit (pos (h.cw.request_count + 1)))) =
        ground (arith, z, h.present, inside) in
      (
        subst (IsLive key start (count + 1) limit window room)
            (ap (λ (x : RateLimiter × Bool). x.0) (sym e))
            (record {
              cw = more;
              present = lookup-insert key key more rl.clients ∙ ground (arith, eq_iff key key);
              started = h.started;
              counted = omega (arith, h.counted);
              same_limit = h.same_limit;
              same_window = h.same_window;
              ttl = h.ttl;
              fits = omega (arith, length-insert key more h.cw rl.clients h.present, h.fits);
            }),
        λ a.
            ground
              (arith, ap (λ (x : RateLimiter × Bool). x.1) (sym e) ∙ a, h.counted, h.same_limit),
      )

  own_count :
      (count : ℕ) (k : String) (events : List Event) (r r' : RateLimiter × Bool)
      → r ≡ r'
      → str_eq k key ≡ true
      → (r'.1 ≡ true → count + 1 ≤ limit)
      → admitted key events r'.0 ≤ limit - (count + 1)
      → (if str_eq k key && r.1 then 1 else 0) + admitted key events r.0 ≤ limit - count
  own_count count k events r r' e d paid later =
      subst
        (λ (x : RateLimiter × Bool).
          (if str_eq k key && x.1 then 1 else 0) + admitted key events x.0 ≤ limit - count)
        (sym e)
        (elim (Bool-cases r'.1) [
          | inl t ↦ ground (arith, d, t, paid t, later)
          | inr t ↦ ground (arith, d, t, later)
        ])

  IsLive-admitted :
      (count : ℕ) (events : List Event) (rl : RateLimiter)
      → str_eq key "" ≡ false
      → AreBefore (start + window) events
      → IsLive key start count limit window (length events) rl
      → admitted key events rl ≤ limit - count
  unfolding admitted
  IsLive-admitted count [] rl z b h = omega arith
  IsLive-admitted count (tick now ∷ events) rl z b h =
      IsLive-admitted count events (cleanup_locked now rl) z b.1 (
        cleanup_locked-IsLive key start limit window count now (length events) rl b.0
          (less_room key start limit window count (length events) rl h))
  IsLive-admitted count (request k now ∷ events) rl z b h = elim (Bool-cases (str_eq k key)) [
    | inr d ↦
        let later =
          IsLive-admitted count events (limit_by_key k now rl).0 z b.1
            (other-IsLive key start limit window count now (length events) k rl d b.0 h) in
        ground (arith, d, later)
    | inl d ↦
        let e : limit_by_key k now rl ≡ limit_by_key key now rl =
          ap (λ x. limit_by_key x now rl) (ground (arith, d, eq_iff k key)) in
        let (live, paid) = own-IsLive count now (length events) rl z b.0 h in
        let later = IsLive-admitted (count + 1) events (limit_by_key key now rl).0 z b.1 live in
        own_count count k events _ _ e d paid later
  ]

-- A window of a key lets no more requests through than are left of its limit: from any state in which
-- the key has a window, over any requests and sweeps no later than the end of that window, that are so
-- few that the map cannot fill up and evict it. The first request of a window, which is always let
-- through, has been counted when the window began.
pub admitted-le :
    (key : String) (cw : ClientWindow) (rl : RateLimiter) (events : List Event)
    → str_eq key "" ≡ false
    → lookup key rl.clients ≡ some cw
    → rl.window ≤ rl.clean_ttl
    → AreBefore (cw.window_start + rl.window) events
    → length rl.clients + length events ≤ rl.max_clients
    → admitted key events rl ≤ pos_part rl.limit - cw.request_count
admitted-le key cw rl events z e ttl before room =
    IsLive-admitted key cw.window_start (pos_part rl.limit) rl.window cw.request_count events rl z
      before
      (record {
        cw = cw;
        present = e;
        started = refl;
        counted = refl;
        same_limit = refl;
        same_window = refl;
        ttl = ttl;
        fits = room;
      })
