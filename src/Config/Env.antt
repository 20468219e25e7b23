-- ===== src/Config/Env.antt =====
-- The settings of src/lib/env/index.ts, in the groups of its file, and their schemas: a function of
-- `process.env`, which gives the text of a variable or `undefined`. Zod's coercion to a number and
-- its check of a URL are arguments; `to_integer` gives the value if that is a non-negative integer.
use saral.Base.{
  ℕ, Bool, true, false, ◌&&◌, ◌||◌, Option, none, some, List, [], ◌∷◌, String, leb, ◌==◌,
  if◌then◌else◌,
}
use Prim.Native.Char.{code}
use text.Mathlib.Text.{◌==◌ as str_eq}
use saral.Meta.Schema.{◌>>=◌, non_empty}

pub data Driver : Type 0 where
  local aws : Driver

-- NODE_ENV, APP_PORT, APP_ROUTE_PREFIX, LOG_LEVEL, LOG_OUTPUT, DATABASE_URL, DATABASE_POOL_MAX and
-- METRICS_ENABLED.
pub record ServiceSettings : Type 0 where
  pub node_env : String
  pub app_port : ℕ
  pub app_route_prefix : String
  pub log_level : String
  pub log_output : String
  pub database_url : String
  pub database_pool_max : ℕ
  pub metrics_enabled : Bool

pub record MetaSettings : Type 0 where
  pub access_token : String
  pub ig_user_id : String
  pub graph_version : String
  pub api_base_url : String

pub record SyncSettings : Type 0 where
  pub max_media_per_run : ℕ
  pub page_size : ℕ
  pub download_concurrency : ℕ
  pub throttle_threshold_pct : ℕ
  pub request_timeout_ms : ℕ

pub record DriverSettings : Type 0 where
  pub queue_driver : Driver
  pub storage_driver : Driver
  pub scheduler_driver : Driver
  pub local_storage_dir : String
  pub recent_sync_cron : String
  pub aws_region : String
  pub s3_bucket : Option String
  pub sqs_queue_url : Option String
  pub sqs_dlq_url : Option String
  pub sqs_visibility_timeout : ℕ
  pub sqs_wait_time_seconds : ℕ
  pub schedule_name : String
  pub schedule_role_arn : Option String

pub record Env : Type 0 where
  pub service : ServiceSettings
  pub meta : MetaSettings
  pub sync : SyncSettings
  pub drivers : DriverSettings

pub record EnvCoercions : Type 0 where
  pub to_integer : String → Option ℕ
  pub is_url : String → Bool

-- `.default(d)`.
abbrev pub or_text : String → Option String → String
or_text d none = d
or_text d (some s) = s

abbrev pub one_of : List String → String → Option String
one_of [] s = none
one_of (x ∷ xs) s = if str_eq x s then some s else one_of xs s

-- `z.coerce.number().int().min(lo).max(hi).default(d)`; `positive` is a minimum of 1.
abbrev pub within : EnvCoercions → (lo : ℕ) (hi : Option ℕ) (d : ℕ) → Option String → Option ℕ
within to lo hi d none = some d
within to lo none d (some s) = to.to_integer s >>= λ n. if leb lo n then some n else none
within to lo (some hi) d (some s) =
    to.to_integer s >>= λ n. if leb lo n && leb n hi then some n else none

abbrev pub driver : Option String → Option Driver
driver none = some local
driver (some s) = if str_eq s "local" then some local else if str_eq s "aws" then some aws else none

abbrev pub booleanish : Option String → Option Bool
booleanish none = some true
booleanish (some s) =
    if str_eq s "true" || str_eq s "1"
    then some true
    else if str_eq s "false" || str_eq s "0"
    then some false
    else none

abbrev pub required_url : EnvCoercions → Option String → Option String
required_url to none = none
required_url to (some s) = if to.is_url s then some s else none

abbrev pub required_text : Option String → Option String
required_text none = none
required_text (some s) = non_empty s

-- `.startsWith('/')`.
abbrev pub with_slash : String → Option String
with_slash String.[] = none
with_slash (String.◌∷◌ c s) = if code c == 47 then some (String.◌∷◌ c s) else none

-- `/^v\d+\.\d+$/`, by the part that is being read.
abbrev pub is_digit : ℕ → Bool
is_digit c = leb 48 c && leb c 57

unfoldable pub minor_part : (seen : Bool) → String → Bool
minor_part seen String.[] = seen
minor_part seen (String.◌∷◌ c s) = is_digit (code c) && minor_part true s

unfoldable pub major_part : (seen : Bool) → String → Bool
unfolding minor_part
major_part seen String.[] = false
major_part seen (String.◌∷◌ c s) =
    let rest = major_part true s in
    if is_digit (code c) then rest else seen && code c == 46 && minor_part false s

unfoldable pub is_version : String → Bool
unfolding major_part
is_version String.[] = false
is_version (String.◌∷◌ c s) = code c == 118 && major_part false s
