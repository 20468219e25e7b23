-- ===== src/Meta/RateLimit.antt =====
-- src/lib/meta/rateLimit.ts: the usage that the response headers report, and the pause before the
-- next request. `JSON.parse` is an argument, which gives `none` where it throws. The ramp is
-- computed over the rational numbers, and rounded to the nearest, halves upwards.
pub mod Usage
pub mod Worst
pub mod Throttle
