-- ===== src/Tests/Requests.antt =====
-- The client of Meta's API at concrete inputs (src/lib/meta/MetaGraphClient.ts,
-- src/lib/meta/rateLimit.ts).
use saral.Base.{
  ℕ, ◌+◌, ◌≤◌, ◌≡◌, refl, ◌≢◌, Bool, true, false, Option, none, some, [], String, arith,
}
use saral.Json.{Json, num, str, arr, obj, nil, end, field, property, property_of}
use saral.Meta.RateLimit.Usage.{
  RateLimitUsage, JsonParse, safe_json_parse, throttle_delay_ms, parse_rate_limit_headers,
}
use saral.Meta.Schema.{MetaErrorBody, MetaMediaResponse, meta_error_response, meta_media_response}
use saral.Meta.Client.Net.{Url, Response, Net, counting, top_media, ClientState, Config}
use saral.Meta.Client.Request.{
  has_code, auth_error_codes, parse_body, Reaction, react, react_to_body, sleep, conclude, attempts,
  request,
}
use saral.Meta.Client.Retries.{request-count}
use saral.Meta.Client.Paginate.{
  PaginateOptions, MediaPage, Walk, page, stuck, after_page, start_walk, page_url, fetch_page,
  continue, yield_page, next_page,
}
use saral.Meta.Client.Walk.{next_page-ne-stuck}
use saral.Meta.Client.Cap.{KeepsLimit}

abbrev pub config : Config
config = record {
  base_url = "https://graph.facebook.com";
  access_token = "secret";
  ig_user_id = "17";
  throttle_threshold_pct = 75;
  sync_page_size = 50;
}

abbrev pub fresh : ClientState
fresh = record { last_rate_limit = none; learned_top = none; learned_recent = none }

abbrev pub answer : ℕ → String → Response
answer status text = record {
  status = status;
  x_app_usage = none;
  x_business_use_case_usage = none;
  text = text;
}

-- A world that counts its answers, all of them the same one.
abbrev pub always : Option Response → Net ℕ
always r = record { sleep = λ ms w. (w, false); fetch = λ url w. (w + 1, r); jitter = λ w. (w, 17) }

abbrev some_url : Url
some_url = record { path = "https://graph.facebook.com/17"; params = [] }

-- The JSON of every text.
abbrev pub reads_as : Json → JsonParse
reads_as v s = some v

abbrev no_page : Json → Option String
no_page v = none

-- No answer at all.
request-count_example :
    (request (counting (always none)) config (reads_as Json.null) some_url no_page (0, 3) fresh).0.1
    ≤ 3 + 4
request-count_example =
    request-count (always none) config (reads_as Json.null) some_url no_page (0, 3) fresh

abbrev token_error : Json
token_error = obj (
    field "error" (obj (field "message" (str "Invalid OAuth token") (field "code" (num 190) end)))
      end)

abbrev token_body : MetaErrorBody
token_body = record { message = "Invalid OAuth token"; code = some 190; error_subcode = none }

token_envelope : meta_error_response token_error ≡ some token_body
unfolding meta_error_response property property_of
token_envelope = refl

token_parsed : parse_body (reads_as token_error) "{}" ≡ some token_error
token_parsed = refl

awake :
    sleep
      (always (some (answer 400 "{}")))
      config
      (reads_as token_error)
      (throttle_delay_ms none 75)
      0
    ≡ (0, false)
unfolding sleep throttle_delay_ms
awake = refl

is_token_code : has_code auth_error_codes (some 190) ≡ true
is_token_code = refl

abbrev usage_at : ℕ → RateLimitUsage
usage_at pct = record {
  worst_pct = pct;
  call_count_pct = some pct;
  cpu_time_pct = none;
  total_time_pct = none;
  regain_minutes = none;
  raw = (none, none);
}

abbrev app_usage : Json
app_usage = obj (field "call_count" (num 28) (field "total_time" (num 35) end))

abbrev pub options : PaginateOptions
options = record {
  hashtag_id = "178";
  edge = top_media;
  max_items = 120;
  page_size = none;
  start_cursor = none;
}

abbrev pub any_url : String → Bool
any_url s = true

next_page-ne-stuck_example :
    (next_page
      (always none)
      config
      (reads_as Json.null)
      any_url
      options
      (start_walk config options fresh)
      0
      fresh).2
    ≢ stuck
next_page-ne-stuck_example =
    next_page-ne-stuck (always none) config (reads_as Json.null) any_url options
      (start_walk config options fresh) 0 fresh

-- A page without items.
abbrev no_items : Json
no_items = obj (field "data" (arr nil) end)

abbrev empty_body : MetaMediaResponse
empty_body = record { data_items = []; paging = none }

empty_page :
    (url : Url)
    → react (reads_as no_items) (meta_media_response any_url) url (answer 200 "{}")
      ≡ Reaction.done empty_body
unfolding react react_to_body meta_media_response meta_error_response property property_of
empty_page url = refl

keeps : KeepsLimit (always (some (answer 200 "{}"))) config (reads_as no_items) any_url options
unfolding request attempts conclude sleep
keeps walk w w' c c' body usage h = ground (arith, empty_page (page_url config options walk))

abbrev begun : Walk
begun = start_walk config options fresh

abbrev yielded_page : MediaPage
yielded_page = record { items = []; page_number = 1; next_cursor = none; rate_limit = none }

abbrev after_one : Walk
after_one = record {
  phase = after_page false 0 none none;
  page_size = 50;
  cursor = none;
  page_number = 1;
  yielded = 0;
}

yields :
    (next_page
      (always (some (answer 200 "{}")))
      config
      (reads_as no_items)
      any_url
      options
      begun
      0
      fresh).2
    ≡ page yielded_page after_one
unfolding next_page continue fetch_page yield_page request attempts conclude sleep react
    react_to_body meta_media_response meta_error_response property property_of throttle_delay_ms
    parse_rate_limit_headers start_walk safe_json_parse
yields = refl
