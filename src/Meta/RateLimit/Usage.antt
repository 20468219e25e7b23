-- ===== src/Meta/RateLimit/Usage.antt =====
-- The definitions of src/lib/meta/rateLimit.ts.
use saral.Base.{
  ℕ, ◌+◌, ◌-◌, ◌*◌, ◌/◌, max, min, Bool, true, false, Option, none, some, List, [], ◌∷◌, ◌++◌,
  String, ltb, ◌==◌, if◌then◌else◌,
}
use saral.Json.{Json, num, arr, obj, items, values, property_of}

pub record RateLimitUsage : Type 0 where
  pub worst_pct : ℕ
  pub call_count_pct : Option ℕ
  pub cpu_time_pct : Option ℕ
  pub total_time_pct : Option ℕ
  pub regain_minutes : Option ℕ
  pub raw : Option Json × Option Json

abbrev pub JsonParse : Type 0
JsonParse = String → Option Json

-- The empty string is falsy, as is a header that is not there.
unfoldable pub safe_json_parse : JsonParse → Option String → Option Json
safe_json_parse parse none = none
safe_json_parse parse (some String.[]) = none
safe_json_parse parse (some s) = parse s

abbrev pub num_of : Option Json → Option ℕ
num_of (some (num n)) = some n
num_of _ = none

unfoldable pub pct_of : Json → String → Option ℕ
pct_of source key = num_of (property_of key source)

-- `v && typeof v === 'object'`: an object or an array.
abbrev pub is_object : Json → Bool
is_object (arr vs) = true
is_object (obj fs) = true
is_object _ = false

-- `Object.values`, of an array its items.
abbrev pub object_values : Json → List Json
object_values (arr vs) = items vs
object_values (obj fs) = values fs
object_values _ = []

abbrev pub if_object : Json → List Json
if_object v = if is_object v then v ∷ [] else []

abbrev pub each : (Json → List Json) → List Json → List Json
each f [] = []
each f (v ∷ vs) = f v ++ each f vs

-- `Array.isArray(entries)`, and the entries that are objects.
abbrev pub object_entries : Json → List Json
object_entries (arr vs) = each if_object (items vs)
object_entries _ = []

abbrev pub defined : (Json → List Json) → Option Json → List Json
defined f none = []
defined f (some v) = f v

unfoldable pub candidates_of : (app_usage buc_usage : Option Json) → List Json
candidates_of app_usage buc_usage =
    defined if_object app_usage ++ defined (λ v. each object_entries (object_values v)) buc_usage

abbrev pub or_zero : Option ℕ → ℕ
or_zero none = 0
or_zero (some n) = n

-- `Math.max(prev ?? 0, next ?? 0) || prev || next`.
unfoldable pub larger_of : Option ℕ → Option ℕ → Option ℕ
larger_of prev next =
    let m = max (or_zero prev) (or_zero next) in
    if m == 0 then (if or_zero prev == 0 then next else prev) else some m

-- The variables of the loop over the candidates.
pub record Totals : Type 0 where
  pub worst : ℕ
  pub call : Option ℕ
  pub cpu : Option ℕ
  pub total : Option ℕ
  pub regain : Option ℕ

abbrev pub start_totals : Totals
start_totals = record { worst = 0; call = none; cpu = none; total = none; regain = none }

abbrev pub longer_wait : Option ℕ → Option ℕ → Option ℕ
longer_wait prev none = prev
longer_wait prev (some n) = if ltb 0 n then some (max (or_zero prev) n) else prev

-- The body of the loop.
unfoldable pub count_in : Json → Totals → Totals
count_in candidate t =
    let call = pct_of candidate "call_count" in
    let cpu = pct_of candidate "total_cputime" in
    let total = pct_of candidate "total_time" in
    record {
      worst = max (max (max t.worst (or_zero call)) (or_zero cpu)) (or_zero total);
      call = larger_of t.call call;
      cpu = larger_of t.cpu cpu;
      total = larger_of t.total total;
      regain = longer_wait t.regain (pct_of candidate "estimated_time_to_regain_access");
    }

unfoldable pub summarise : List Json → Totals → Totals
summarise [] t = t
summarise (c ∷ cs) t = summarise cs (count_in c t)

abbrev pub to_usage : Option Json × Option Json → Totals → RateLimitUsage
to_usage raw t = record {
  worst_pct = t.worst;
  call_count_pct = t.call;
  cpu_time_pct = t.cpu;
  total_time_pct = t.total;
  regain_minutes = t.regain;
  raw = raw;
}

abbrev pub usage_of : Option Json × Option Json → List Json → Option RateLimitUsage
usage_of raw [] = none
usage_of raw (c ∷ cs) = some (to_usage raw (summarise (c ∷ cs) start_totals))

-- The two headers are given by their values.
unfoldable pub parse_rate_limit_headers :
    JsonParse → (x_app_usage x_business_use_case_usage : Option String) → Option RateLimitUsage
unfolding candidates_of safe_json_parse
parse_rate_limit_headers parse x_app_usage x_buc_usage =
    let app_usage = safe_json_parse parse x_app_usage in
    let buc_usage = safe_json_parse parse x_buc_usage in
    usage_of (app_usage, buc_usage) (candidates_of app_usage buc_usage)

-- `Math.round(a / b)`.
unfoldable pub round_div : ℕ → ℕ → ℕ
round_div a b = (2 * a + b) / (2 * b)

unfoldable pub throttle_delay_ms : Option RateLimitUsage → ℕ → ℕ
throttle_delay_ms none threshold_pct = 0
throttle_delay_ms (some usage) threshold_pct =
    if ltb 0 (or_zero usage.regain_minutes)
    then min (or_zero usage.regain_minutes * 60000) (5 * 60000)
    else if ltb usage.worst_pct threshold_pct
    then 0
    else 1000 + round_div ((usage.worst_pct - threshold_pct) * 29000) (max (100 - threshold_pct) 1)
