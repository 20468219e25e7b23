-- ===== src/Meta/Client/Terminal.antt =====
-- Which answers end MetaGraphClient.request (src/lib/meta/MetaGraphClient.ts) at once, and which it
-- keeps retrying.
use saral.Base.{
  ℕ, zero, suc, ◌+◌, ◌≡◌, refl, ◌⊎◌, inl, inr, Bool, true, false, Option, none, some, arith,
  Option-cases,
}
use saral.Json.{Json}
use saral.Meta.RateLimit.Usage.{JsonParse, parse_rate_limit_headers, throttle_delay_ms}
use saral.Meta.Errors.{MetaError, auth, payload_too_large, network}
use saral.Meta.Schema.{MetaErrorBody, meta_error_response}
use saral.Meta.Client.Net.{Url, Response, Net, counting, ClientState, Config}
use saral.Meta.Client.Request.{
  has_code, auth_error_codes, rate_limit_error_codes, asks_for_less, attempted_limit, parse_body,
  Pause, normal, Reaction, again, react_to_error, react, Outcome, returned, threw, noted, pause_ms,
  backoff_ms, sleep, retry, conclude, attempts, request,
}
use saral.Meta.Client.Retries.{sleep-count}

-- The error envelope of a response: its body parses, and the schema finds an error in it.
abbrev pub HasEnvelope : JsonParse → Response → MetaErrorBody → Type 0
HasEnvelope parse response e =
    (body : Json) × (parse_body parse response.text ≡ some body)
    × (meta_error_response body ≡ some e)

abbrev pub IsThrottled : Response → MetaErrorBody → Type 0
IsThrottled response e = (has_code rate_limit_error_codes e.code ≡ true) ⊎ (response.status ≡ 429)

-- The two errors that Meta reports and that are not worth an identical request.
abbrev pub EndsWith : Url → Response → MetaErrorBody → MetaError → Type 0
EndsWith url response e err =
    ((has_code auth_error_codes e.code ≡ true) × (err ≡ auth e.code e.error_subcode))
    ⊎ ((has_code auth_error_codes e.code ≡ false)
        × ¬ IsThrottled response e
        × (e.code ≡ some 1)
        × (asks_for_less e.message ≡ true)
        × (err ≡ payload_too_large (attempted_limit url) e.code e.error_subcode))

react-fail :
    {T : Type 0} (parse : JsonParse) (schema : Json → Option T) (url : Url) (response : Response)
    (e : MetaErrorBody) (err : MetaError)
    → HasEnvelope parse response e
    → EndsWith url response e err
    → react parse schema url response ≡ Reaction.fail err
unfolding react react_to_error
react-fail parse schema url response e err (body, parsed, envelope) ends = ground arith

-- Let the pause before the first attempt not be aborted, and its answer hold an error of Meta.
-- Whatever the HTTP status, a rejected access token, and a page that is too large where the
-- response is not throttled, end the request in its first attempt: nothing happens to the world
-- after the one fetch, and the error is thrown.
pub request_gives_up :
    {W T : Type 0} (net : Net W) (config : Config) (parse : JsonParse) (schema : Json → Option T)
    (url : Url) (w w1 w2 : W) (c : ClientState) (response : Response) (e : MetaErrorBody)
    (err : MetaError)
    → sleep net config parse (throttle_delay_ms c.last_rate_limit config.throttle_threshold_pct) w
      ≡ (w1, false)
    → net.fetch url w1 ≡ (w2, some response)
    → HasEnvelope parse response e
    → EndsWith url response e err
    → let usage =
        parse_rate_limit_headers parse response.x_app_usage response.x_business_use_case_usage in
      request net config parse url schema w c ≡ (w2, noted usage c, threw err)
unfolding request attempts conclude
request_gives_up net config parse schema url w w1 w2 c response e err slept fetched envelope ends =
    ground (arith, react-fail parse schema url response e err envelope ends)

abbrev pub has_thrown : {T : Type 0} → Outcome T → Bool
has_thrown (returned t usage) = false
has_thrown (threw e) = true

-- The answer is one that is retried: none at all, or a response to be asked for again.
abbrev pub IsRetried : {T : Type 0} → JsonParse → (Json → Option T) → Url → Option Response → Type 0
IsRetried parse schema url none = Unit
IsRetried parse schema url (some response) =
    (e : MetaError) × (pause : Pause) × (react parse schema url response ≡ again e pause)

module _ {W T : Type 0} (net : Net W) (config : Config) (parse : JsonParse)
    (schema : Json → Option T) (url : Url) (calm : (ms : ℕ) (w : W) → (net.sleep ms w).1 ≡ false)
    (retried : (w : W) → IsRetried parse schema url (net.fetch url w).1) where
  sleep_calm : (ms : ℕ) (w : W × ℕ) → (sleep (counting net) config parse ms w).1 ≡ false
  unfolding sleep
  sleep_calm ms w = ground (arith, calm ms w.0)

  -- The request is over after `n` more fetches, with an error.
  abbrev Exhausts : ℕ → W × ℕ → (W × ℕ) × ClientState × Outcome T → Type 0
  Exhausts n w r = (r.0.1 ≡ w.1 + n) × (has_thrown r.2 ≡ true)

  retry-Exhausts :
      (attempt n : ℕ) (e : MetaError) (pause : Pause)
      (next : W × ℕ → ClientState → (W × ℕ) × ClientState × Outcome T)
      → ((w : W × ℕ) (c : ClientState) → Exhausts n w (next w c))
      → (w : W × ℕ) (c : ClientState)
      → Exhausts n w (retry (counting net) config parse attempt n e pause next w c)
  unfolding retry
  retry-Exhausts attempt zero e pause next over w c = (omega arith, refl)
  retry-Exhausts attempt (suc n) e pause next over w c =
      let (w1, j) = (counting net).jitter w in
      let ms = pause_ms pause (backoff_ms attempt j) in
      ground (
        arith,
        sleep-count net config parse ms w1,
        sleep_calm ms w1,
        over (sleep (counting net) config parse ms w1).0 c,
      )

  attempts_exhaust :
      (n attempt : ℕ) (w : W × ℕ) (c : ClientState)
      → Exhausts n w (attempts (counting net) config parse url schema n attempt w c)
  unfolding attempts conclude
  attempts_exhaust zero attempt w c = (omega arith, refl)
  attempts_exhaust (suc n) attempt w c =
      let ms = throttle_delay_ms c.last_rate_limit config.throttle_threshold_pct in
      let w1 = (sleep (counting net) config parse ms w).0 in
      let (w2, answer) = (counting net).fetch url w1 in
      let next = attempts (counting net) config parse url schema n (attempt + 1) in
      let over = attempts_exhaust n (attempt + 1) in
      elim (Option-cases answer) [
        | inl lost ↦ ground (
          arith,
          sleep-count net config parse ms w,
          sleep_calm ms w,
          retry-Exhausts attempt n network normal next over w2 c,
        )
        | inr (response, got) ↦
            let usage =
              parse_rate_limit_headers parse response.x_app_usage
                response.x_business_use_case_usage in
            let (e, pause, asked) = rw got at (retried w1.0) in
            ground (
              arith,
              sleep-count net config parse ms w,
              sleep_calm ms w,
              retry-Exhausts attempt n e pause next over w2 (noted usage c),
            )
      ]

  -- If every answer is one that is retried and nothing aborts the pauses, a request sends exactly
  -- four and then throws.
  pub request_exhausts :
      (w : W × ℕ) (c : ClientState)
      → let r = request (counting net) config parse url schema w c in
        (r.0.1 ≡ w.1 + 4) × (has_thrown r.2 ≡ true)
  unfolding request
  request_exhausts w c = attempts_exhaust 4 1 w c
