-- ===== src/Meta/RateLimit/Throttle.antt =====
-- How long the pause of throttleDelayMs (src/lib/meta/rateLimit.ts) is.
use saral.Base.{ℕ, ◌-◌, ◌*◌, ◌≤◌, ◌<◌, ◌≡◌, ◌≢◌, ◌⊎◌, max, some, arith}
use saral.Meta.RateLimit.Usage.{RateLimitUsage, or_zero, round_div, throttle_delay_ms}

-- Not above the quotient's numerator if that is a multiple.
round_div-le : (a b k : ℕ) → 0 < b → a ≤ k * b → round_div a b ≤ k
unfolding round_div
round_div-le a b k pos h = grind arith

round_div_mono : (a a' b : ℕ) → a ≤ a' → round_div a b ≤ round_div a' b
unfolding round_div
round_div_mono a a' b h = grind arith

abbrev pub IsBlocked : RateLimitUsage → Type 0
IsBlocked u = 0 < or_zero u.regain_minutes

-- The pause for usage figures of at most 100 and a threshold of at most 100, in its three cases.
-- Blocked: at least a minute, and at most five and at most the minutes that Meta names. Not blocked
-- and below the threshold: none. Not blocked and from the threshold on: between one second and
-- thirty, and one second at the threshold.
pub throttle_delay_bounds :
    (u : RateLimitUsage) (threshold : ℕ)
    → u.worst_pct ≤ 100
    → threshold ≤ 100
    → let delay = throttle_delay_ms (some u) threshold in
      (IsBlocked u
        × (60000 ≤ delay)
        × (delay ≤ 300000)
        × (delay ≤ or_zero u.regain_minutes * 60000))
      ⊎ (¬ IsBlocked u × (u.worst_pct < threshold) × (delay ≡ 0))
      ⊎ (¬ IsBlocked u
          × (threshold ≤ u.worst_pct)
          × (1000 ≤ delay)
          × (delay ≤ 30000)
          × ((threshold ≢ u.worst_pct) ⊎ (delay ≡ 1000)))
unfolding throttle_delay_ms
throttle_delay_bounds u threshold in_range sound =
    let b = max (100 - threshold) 1 in
    let a = (u.worst_pct - threshold) * 29000 in
    let top : round_div a b ≤ 29000 = round_div-le a b 29000 (omega arith) (grind arith) in
    let bottom : u.worst_pct ≤ threshold → round_div a b ≤ 0 =
      λ h. round_div-le a b 0 (omega arith) (omega arith) in
    ground (arith, top, bottom)

-- More usage never shortens the pause, if neither reading says that the account is blocked.
pub throttle_delay_mono :
    (u v : RateLimitUsage) (threshold : ℕ)
    → ¬ IsBlocked u
    → ¬ IsBlocked v
    → u.worst_pct ≤ v.worst_pct
    → throttle_delay_ms (some u) threshold ≤ throttle_delay_ms (some v) threshold
unfolding throttle_delay_ms
throttle_delay_mono u v threshold free_u free_v le =
    let b = max (100 - threshold) 1 in
    ground (
      arith,
      round_div_mono ((u.worst_pct - threshold) * 29000) ((v.worst_pct - threshold) * 29000) b
          (omega arith),
    )
