-- ===== src/Meta/Client/Request.antt =====
-- MetaGraphClient.request of src/lib/meta/MetaGraphClient.ts: one request with its retries.
use saral.Base.{
  ℕ, zero, suc, ◌+◌, ◌-◌, ◌*◌, ◌^◌, max, min, Bool, true, false, ◌&&◌, ◌||◌, Option, none, some,
  List, [], ◌∷◌, String, ltb, leb, ◌==◌, if◌then◌else◌,
}
use Prim.Native.Char.{code}
use saral.Json.{Json, obj, end}
use saral.Meta.RateLimit.Usage.{
  RateLimitUsage, JsonParse, parse_rate_limit_headers, throttle_delay_ms,
}
use saral.Meta.Errors.{
  MetaError, auth, rate_limit, payload_too_large, transient, request_rejected, http_error,
  invalid_json, schema_mismatch, unavailable, network, aborted,
}
use saral.Meta.Schema.{MetaErrorBody, meta_error_response}
use saral.Meta.Client.Net.{Value, number, Url, get_param, Response, Net, ClientState, Config}

abbrev pub contains : ℕ → List ℕ → Bool
contains n [] = false
contains n (m ∷ ms) = n == m || contains n ms

abbrev pub auth_error_codes : List ℕ
auth_error_codes = 190 ∷ 102 ∷ 463 ∷ 467 ∷ []

abbrev pub rate_limit_error_codes : List ℕ
rate_limit_error_codes = 4 ∷ 17 ∷ 32 ∷ 613 ∷ 80004 ∷ []

abbrev pub retryable_status : List ℕ
retryable_status = 408 ∷ 425 ∷ 429 ∷ 500 ∷ 502 ∷ 503 ∷ 504 ∷ []

-- `code !== undefined && CODES.has(code)`.
abbrev pub has_code : List ℕ → Option ℕ → Bool
has_code codes none = false
has_code codes (some c) = contains c codes

abbrev pub codes : String → List ℕ
codes String.[] = []
codes (String.◌∷◌ c s) = code c ∷ codes s

-- The case of the letters A to Z, which is what the flag `i` ignores of an ASCII pattern.
abbrev pub folded : ℕ → ℕ
folded c = if leb 65 c && leb c 90 then c + 32 else c

abbrev pub starts_with : List ℕ → List ℕ → Bool
starts_with [] s = true
starts_with (p ∷ ps) [] = false
starts_with (p ∷ ps) (c ∷ s) = p == folded c && starts_with ps s

abbrev pub occurs_in : List ℕ → List ℕ → Bool
occurs_in pattern [] = starts_with pattern []
occurs_in pattern (c ∷ s) = starts_with pattern (c ∷ s) || occurs_in pattern s

-- `/reduce the amount of data/i.test(message)`.
unfoldable pub asks_for_less : String → Bool
asks_for_less message = occurs_in (codes "reduce the amount of data") (codes message)

abbrev pub limit_of : Option Value → ℕ
limit_of (some (number n)) = n
limit_of _ = 0

-- `Number(url.searchParams.get('limit') ?? 0)`.
unfoldable pub attempted_limit : Url → ℕ
unfolding get_param
attempted_limit url = limit_of (get_param "limit" url.params)

-- `text.length > 0 ? JSON.parse(text) : {}`.
abbrev pub parse_body : JsonParse → String → Option Json
parse_body parse String.[] = some (obj end)
parse_body parse s = parse s

pub data Pause : Type 0 where
  normal throttled : Pause

-- What one response comes to: a result, an error that ends the request, or one that is retried.
pub data Reaction (T : Type 0) : Type 0 where
  done : T → Reaction T
  fail : MetaError → Reaction T
  again : MetaError → Pause → Reaction T

abbrev pub validated : {T : Type 0} → Option T → Reaction T
validated none = fail schema_mismatch
validated (some t) = done t

-- An error envelope in the body, whatever the status.
unfoldable pub react_to_error : {T : Type 0} → Url → ℕ → MetaErrorBody → Reaction T
unfolding asks_for_less attempted_limit
react_to_error url status e =
    if has_code auth_error_codes e.code
    then fail (auth e.code e.error_subcode)
    else if has_code rate_limit_error_codes e.code || status == 429
    then again (rate_limit e.code e.error_subcode) throttled
    else if has_code (1 ∷ []) e.code && asks_for_less e.message
    then fail (payload_too_large (attempted_limit url) e.code e.error_subcode)
    else if contains status retryable_status
    then again (transient e.code e.error_subcode) normal
    else fail (request_rejected e.code e.error_subcode)

-- No error envelope: the status decides, and then the schema.
unfoldable pub react_to_body : {T : Type 0} → (Json → Option T) → ℕ → Json → Reaction T
react_to_body schema status body =
    if leb 200 status && ltb status 300
    then validated (schema body)
    else if contains status retryable_status
    then again (http_error status) normal
    else fail (http_error status)

abbrev pub react_to_json : {T : Type 0} → (Json → Option T) → Url → ℕ → Json → Reaction T
react_to_json schema url status body = elim (meta_error_response body) [
  | some e ↦ react_to_error url status e
  | none ↦ react_to_body schema status body
]

unfoldable pub react : {T : Type 0} → JsonParse → (Json → Option T) → Url → Response → Reaction T
react parse schema url response = elim (parse_body parse response.text) [
  | none ↦ again (invalid_json response.status) normal
  | some body ↦ react_to_json schema url response.status body
]

-- `Math.min(1_000 * 2 ** (attempt - 1), 15_000)` and the jitter.
unfoldable pub backoff_ms : (attempt jitter : ℕ) → ℕ
backoff_ms attempt jitter = min (1000 * 2 ^ (attempt - 1)) 15000 + jitter

abbrev pub pause_ms : Pause → ℕ → ℕ
pause_ms normal backoff = backoff
pause_ms throttled backoff = max (backoff * 4) 5000

-- A reading replaces the last one; its absence leaves it.
abbrev pub noted : Option RateLimitUsage → ClientState → ClientState
noted none c = c
noted (some u) c = record c { last_rate_limit = some u }

-- How a request ends: with a body and the reading of its own headers, or with an error.
pub data Outcome (T : Type 0) : Type 0 where
  returned : T → Option RateLimitUsage → Outcome T
  threw : MetaError → Outcome T

module _ {W : Type 0} (net : Net W) (config : Config) (parse : JsonParse) where
  -- `sleep`: no time at all is no timer, and cannot be aborted.
  unfoldable pub sleep : ℕ → W → W × Bool
  sleep ms w = if ms == 0 then (w, false) else net.sleep ms w

  -- Where an attempt that is to be retried goes on: a pause, and the next attempt, which is given
  -- as a function. Without an attempt left the error is thrown.
  unfoldable pub retry :
      {T : Type 0}
      → (attempt attempts_left : ℕ) → MetaError
      → Pause
      → (W → ClientState → W × ClientState × Outcome T)
      → W
      → ClientState
      → W × ClientState × Outcome T
  retry attempt zero e pause next w c = (w, c, threw e)
  retry attempt (suc n) e pause next w c =
      let (w1, j) = net.jitter w in
      let (w2, stopped) = sleep (pause_ms pause (backoff_ms attempt j)) w1 in
      let rest = next w2 c in if stopped then (w2, c, threw aborted) else rest

  unfoldable pub conclude :
      {T : Type 0}
      → Reaction T
      → Option RateLimitUsage
      → (attempt attempts_left : ℕ) → (W → ClientState → W × ClientState × Outcome T)
      → W
      → ClientState
      → W × ClientState × Outcome T
  conclude (done t) usage attempt n next w c = (w, c, returned t usage)
  conclude (fail e) usage attempt n next w c = (w, c, threw e)
  conclude (again e pause) usage attempt n next w c = retry attempt n e pause next w c

  -- The `for` loop from an attempt on; one more than `n` attempts are left.
  unfoldable pub attempts :
      {T : Type 0}
      → Url
      → (Json → Option T)
      → ℕ
      → (attempt : ℕ) → W
      → ClientState
      → W × ClientState × Outcome T
  attempts url schema zero attempt w c = (w, c, threw unavailable)
  attempts url schema (suc n) attempt w c =
      let (w1, stopped) =
        sleep (throttle_delay_ms c.last_rate_limit config.throttle_threshold_pct) w in
      let next = attempts url schema n (attempt + 1) in
      let (w2, answer) = net.fetch url w1 in
      if stopped then (w1, c, threw aborted) else elim answer [
        | none ↦ retry attempt n network normal next w2 c
        | some response ↦
            let usage =
              parse_rate_limit_headers parse response.x_app_usage
                response.x_business_use_case_usage in
            conclude (react parse schema url response) usage attempt n next w2 (noted usage c)
      ]

  abbrev pub max_attempts : ℕ
  max_attempts = 4

  unfoldable pub request :
      {T : Type 0} → Url → (Json → Option T) → W → ClientState → W × ClientState × Outcome T
  request url schema w c = attempts url schema max_attempts 1 w c
