-- ===== src/Meta/Client/Net.antt =====
-- What MetaGraphClient (src/lib/meta/MetaGraphClient.ts) uses of the world: fetch, timers and
-- Math.random, over a state of the world; and the client's own state.
use saral.Base.{ℕ, ◌+◌, Bool, Option, none, some, List, [], ◌∷◌, String, if◌then◌else◌}
use text.Mathlib.Text.{◌==◌ as str_eq}
use saral.Meta.RateLimit.Usage.{RateLimitUsage}

-- A query parameter's value. `number n` is the text `String(n)`.
pub data Value : Type 0 where
  word : String → Value
  number : ℕ → Value

pub record Url : Type 0 where
  pub path : String
  pub params : List (String × Value)

-- `searchParams.set` and `searchParams.get`.
unfoldable pub set_param : String → Value → List (String × Value) → List (String × Value)
set_param k v [] = (k, v) ∷ []
set_param k v ((j, w) ∷ ps) = if str_eq j k then (j, v) ∷ ps else (j, w) ∷ set_param k v ps

unfoldable pub get_param : String → List (String × Value) → Option Value
get_param k [] = none
get_param k ((j, w) ∷ ps) = if str_eq j k then some w else get_param k ps

abbrev pub set_all : List (String × Value) → List (String × Value) → List (String × Value)
set_all [] ps = ps
set_all ((k, v) ∷ kvs) ps = set_all kvs (set_param k v ps)

pub record Response : Type 0 where
  pub status : ℕ
  pub x_app_usage : Option String
  pub x_business_use_case_usage : Option String
  pub text : String

-- `sleep` answers whether the signal aborted it; `fetch` gives `none` where it throws; `jitter` is
-- `Math.floor(Math.random() * 500)`.
pub record Net (W : Type 0) : Type 0 where
  pub sleep : ℕ → W → W × Bool
  pub fetch : Url → W → W × Option Response
  pub jitter : W → W × ℕ

-- A world that also counts the requests that are sent.
abbrev pub counting : {W : Type 0} → Net W → Net (W × ℕ)
counting net = record {
  sleep = λ ms w. let (w', aborted) = net.sleep ms w.0 in ((w', w.1), aborted);
  fetch = λ url w. let (w', answer) = net.fetch url w.0 in ((w', w.1 + 1), answer);
  jitter = λ w. let (w', n) = net.jitter w.0 in ((w', w.1), n);
}

pub data Edge : Type 0 where
  top_media recent_media : Edge

-- The fields that change; `learned_page_size` is the Map, by its two keys.
pub record ClientState : Type 0 where
  pub last_rate_limit : Option RateLimitUsage
  pub learned_top : Option ℕ
  pub learned_recent : Option ℕ

abbrev pub learned_page_size : Edge → ClientState → Option ℕ
learned_page_size top_media c = c.learned_top
learned_page_size recent_media c = c.learned_recent

abbrev pub learn_page_size : Edge → ℕ → ClientState → ClientState
learn_page_size top_media n c = record c { learned_top = some n }
learn_page_size recent_media n c = record c { learned_recent = some n }

-- The constructor's settings, and those that the class reads from the environment.
pub record Config : Type 0 where
  pub base_url : String
  pub access_token : String
  pub ig_user_id : String
  pub throttle_threshold_pct : ℕ
  pub sync_page_size : ℕ
