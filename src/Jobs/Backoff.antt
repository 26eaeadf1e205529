-- ===== src/Jobs/Backoff.antt =====
-- The delay of failJob (internal/jobs/queue.go).
use native.Mathlib.Numerals.{unary_clauses}
use routewerk.Prelude.{ℕ, zero, suc, ◌*◌, ◌^◌, ◌≤◌, ◌<◌, ◌≡◌, ap, arith, leb, if◌then◌else◌}
use routewerk.Prelude.Int.{ℤ, pos, negsuc, mul64, ltb_ℤ}
use routewerk.Jobs.Queue.{backoff_delay, hour}

-- A whole float64 that an int64 holds is converted exactly; Go leaves the others open.
abbrev pub Converts : (ℕ → ℤ) → Type 0
Converts convert = (n : ℕ) → n < 9_223_372_036_854_775_808 → convert n ≡ pos n

pow_suc : (a : ℕ) → 4 ^ suc a ≡ 4 ^ a * 4
pow_suc a = simp unary_clauses

pow_le : (a n : ℕ) → a ≤ n → 4 ^ a ≤ 4 ^ n
pow_le zero zero h = omega arith
pow_le zero (suc n) h = omega (arith, pow_le zero n (omega arith), pow_suc n)
pow_le (suc a) zero h = absurd (omega arith)
pow_le (suc a) (suc n) h = omega (arith, pow_le a n (omega arith), pow_suc n, pow_suc a)

pow_le_14 : (a : ℕ) → a ≤ 14 → 4 ^ a ≤ 268_435_456
pow_le_14 a h = pow_le a 14 h

mul64-pos : (a b : ℕ) → a * b < 9_223_372_036_854_775_808 → mul64 (pos a) (pos b) ≡ pos (a * b)
unfolding mul64
mul64-pos a b h = ground arith

-- Up to 14 attempts, the delay before the next one is 30 seconds times 4 to the number of attempts so
-- far, but at most an hour.
pub backoff_delay_lem :
    (convert : ℕ → ℤ) (attempts : ℕ)
    → Converts convert
    → attempts ≤ 14
    → backoff_delay convert attempts
      ≡ pos (
          if leb (4 ^ attempts * 30_000_000_000) 3_600_000_000_000
          then 4 ^ attempts * 30_000_000_000
          else 3_600_000_000_000)
unfolding backoff_delay
backoff_delay_lem convert attempts c h =
    let b = pow_le_14 attempts h in
    ground (
      arith,
      c (4 ^ attempts) (omega (arith, b)),
      mul64-pos (4 ^ attempts) 30_000_000_000 (omega (arith, b)),
    )

-- At 15 attempts the product wraps around to a negative delay: the job is due at once.
overflow :
    (convert : ℕ → ℤ)
    → Converts convert
    → backoff_delay convert 15 ≡ negsuc 4_681_233_427_419_103_231
unfolding backoff_delay mul64
overflow convert c =
    ap (λ z. let delay = mul64 z (pos 30_000_000_000) in if ltb_ℤ hour delay then hour else delay)
      (c 1_073_741_824 (omega arith))
