-- ===== src/Meta/Client/Retries.antt =====
-- How often MetaGraphClient.request (src/lib/meta/MetaGraphClient.ts) asks, and what it retries.
use saral.Base.{ℕ, zero, suc, ◌+◌, ◌-◌, ◌^◌, ◌≤◌, ◌<◌, ◌≡◌, inl, inr, Option, arith, Option-cases}
use native.Mathlib.Nat.{pow-suc}
use saral.Json.{Json}
use saral.Meta.RateLimit.Usage.{
  RateLimitUsage, JsonParse, parse_rate_limit_headers, throttle_delay_ms,
}
use saral.Meta.Errors.{MetaError, network}
use saral.Meta.Client.Net.{Url, Net, counting, ClientState, Config}
use saral.Meta.Client.Request.{
  Pause, normal, Reaction, done, fail, again, react, backoff_ms, Outcome, noted, pause_ms, sleep,
  retry, conclude, attempts, request,
}

pow_pos : (n : ℕ) → 1 ≤ 2 ^ n
pow_pos zero = omega arith
pow_pos (suc n) = omega (arith, pow-suc 2 n, pow_pos n)

-- If the jitter is below half a second, the pause before the next attempt is at least one second,
-- and below fifteen and a half.
pub backoff_bounds :
    (attempt jitter : ℕ)
    → jitter < 500
    → (1000 ≤ backoff_ms attempt jitter) × (backoff_ms attempt jitter < 15500)
unfolding backoff_ms
backoff_bounds attempt jitter h = omega (arith, pow_pos (attempt - 1))

pub sleep-count :
    {W : Type 0} (net : Net W) (config : Config) (parse : JsonParse) (ms : ℕ) (w : W × ℕ)
    → (sleep (counting net) config parse ms w).0.1 ≡ w.1
unfolding sleep
sleep-count net config parse ms w = ground arith

module _ {W T : Type 0} (net : Net W) (config : Config) (parse : JsonParse) where
  retry-count :
      (attempt n : ℕ) (e : MetaError) (pause : Pause)
      (next : W × ℕ → ClientState → (W × ℕ) × ClientState × Outcome T)
      → ((w : W × ℕ) (c : ClientState) → (next w c).0.1 ≤ w.1 + n)
      → (w : W × ℕ) (c : ClientState)
      → (retry (counting net) config parse attempt n e pause next w c).0.1 ≤ w.1 + n
  unfolding retry
  retry-count attempt zero e pause next few w c = omega arith
  retry-count attempt (suc n) e pause next few w c =
      let (w1, j) = (counting net).jitter w in
      let ms = pause_ms pause (backoff_ms attempt j) in
      ground (
        arith,
        sleep-count net config parse ms w1,
        few (sleep (counting net) config parse ms w1).0 c,
      )

  conclude-count :
      (r : Reaction T) (usage : Option RateLimitUsage) (attempt n : ℕ)
      (next : W × ℕ → ClientState → (W × ℕ) × ClientState × Outcome T)
      → ((w : W × ℕ) (c : ClientState) → (next w c).0.1 ≤ w.1 + n)
      → (w : W × ℕ) (c : ClientState)
      → (conclude (counting net) config parse r usage attempt n next w c).0.1 ≤ w.1 + n
  unfolding conclude
  conclude-count (done t) usage attempt n next few w c = omega arith
  conclude-count (fail e) usage attempt n next few w c = omega arith
  conclude-count (again e pause) usage attempt n next few w c =
      retry-count attempt n e pause next few w c

  -- Every attempt asks at most once.
  attempts-count :
      (url : Url) (schema : Json → Option T) (n attempt : ℕ) (w : W × ℕ) (c : ClientState)
      → (attempts (counting net) config parse url schema n attempt w c).0.1 ≤ w.1 + n
  unfolding attempts
  attempts-count url schema zero attempt w c = omega arith
  attempts-count url schema (suc n) attempt w c =
      let ms = throttle_delay_ms c.last_rate_limit config.throttle_threshold_pct in
      let w1 = (sleep (counting net) config parse ms w).0 in
      let (w2, answer) = (counting net).fetch url w1 in
      let next = attempts (counting net) config parse url schema n (attempt + 1) in
      let few = attempts-count url schema n (attempt + 1) in
      elim (Option-cases answer) [
        | inl lost ↦ ground (
          arith,
          sleep-count net config parse ms w,
          retry-count attempt n network normal next few w2 c,
        )
        | inr (response, got) ↦
            let usage =
              parse_rate_limit_headers parse response.x_app_usage
                response.x_business_use_case_usage in
            ground (
              arith,
              sleep-count net config parse ms w,
              conclude-count (react parse schema url response) usage attempt n next few w2
                  (noted usage c),
            )
      ]

  -- Whatever the world answers, one request of the client sends at most four.
  pub request-count :
      (url : Url) (schema : Json → Option T) (w : W × ℕ) (c : ClientState)
      → (request (counting net) config parse url schema w c).0.1 ≤ w.1 + 4
  unfolding request
  request-count url schema w c = attempts-count url schema 4 1 w c
