-- ===== src/Meta/Client/Paginate.antt =====
-- MetaGraphClient.resolveHashtagId and paginateMedia of src/lib/meta/MetaGraphClient.ts. The async
-- generator is a function from its suspended state, a `Walk`, to what its consumer gets next.
use saral.Base.{
  ℕ, zero, suc, ◌+◌, ◌-◌, ◌*◌, ◌/◌, max, min, Bool, true, false, not, ◌&&◌, ◌||◌, Option, none,
  some, List, [], ◌∷◌, String, ltb, ◌==◌, if◌then◌else◌, length,
}
use Prim.Native.String
use saral.Meta.RateLimit.Usage.{RateLimitUsage, JsonParse, throttle_delay_ms}
use saral.Meta.Errors.{MetaError, hashtag_not_found, payload_too_large, aborted}
use saral.Meta.Schema.{
  MetaMedia, MetaPaging, MetaMediaResponse, meta_media_response, meta_hashtag_search_response,
  media_fields,
}
use saral.Meta.Client.Net.{
  Value, word, number, Url, set_param, set_all, Net, Edge, top_media, recent_media, ClientState,
  learned_page_size, learn_page_size, Config,
}
use saral.Meta.Client.Request.{Outcome, returned, threw, sleep, request}

abbrev pub join_path : String → String → String
join_path base path = String.◌++◌ base (String.◌++◌ "/" path)

unfoldable pub build_url : Config → String → List (String × Value) → Url
unfolding set_param
build_url config path params = record {
  path = join_path config.base_url path;
  params = set_param "access_token" (word config.access_token) (set_all params []);
}

unfoldable pub redact_url : Url → Url
unfolding set_param
redact_url url = record url { params = set_param "access_token" (word "[redacted]") url.params }

pub record PaginateOptions : Type 0 where
  pub hashtag_id : String
  pub edge : Edge
  pub max_items : ℕ
  pub page_size : Option ℕ
  pub start_cursor : Option String

pub record MediaPage : Type 0 where
  pub items : List MetaMedia
  pub page_number : ℕ
  pub next_cursor : Option String
  pub rate_limit : Option RateLimitUsage

-- `Boolean(s)` of an optional string.
abbrev pub truthy : Option String → Bool
truthy none = false
truthy (some String.[]) = false
truthy (some s) = true

-- Where the generator is suspended: before its first page, or at the `yield` of a page.
pub data Phase : Type 0 where
  start : Phase
  after_page :
      (has_more : Bool) (count : ℕ) (next_cursor : Option String)
      (rate_limit : Option RateLimitUsage)
      → Phase

pub record Walk : Type 0 where
  pub phase : Phase
  pub page_size : ℕ
  pub cursor : Option String
  pub page_number : ℕ
  pub yielded : ℕ

abbrev pub probe_size : Option ℕ → ℕ → ℕ
probe_size none requested = requested
probe_size (some learned) requested =
    if learned == 0 then requested else min requested (learned * 2)

abbrev pub or_default : Option ℕ → ℕ → ℕ
or_default none d = d
or_default (some n) d = n

-- The generator up to its loop.
unfoldable pub start_walk : Config → PaginateOptions → ClientState → Walk
start_walk config options c = record {
  phase = start;
  page_size =
      probe_size (learned_page_size options.edge c)
        (or_default options.page_size config.sync_page_size);
  cursor = options.start_cursor;
  page_number = 0;
  yielded = 0;
}

-- The limit that the next request asks for.
abbrev pub limit_for : PaginateOptions → Walk → ℕ
limit_for options walk = min walk.page_size (options.max_items - walk.yielded)

abbrev pub edge_name : Edge → String
edge_name top_media = "top_media"
edge_name recent_media = "recent_media"

abbrev pub cursor_param : Option String → List (String × Value)
cursor_param none = []
cursor_param (some String.[]) = []
cursor_param (some s) = ("after", word s) ∷ []

unfoldable pub page_url : Config → PaginateOptions → Walk → Url
unfolding build_url
page_url config options walk =
    build_url config (join_path options.hashtag_id (edge_name options.edge)) (
      ("user_id", word config.ig_user_id)
      ∷ ("fields", word media_fields)
      ∷ ("limit", number (limit_for options walk))
      ∷ cursor_param walk.cursor)

abbrev pub is_too_large : MetaError → Bool
is_too_large (payload_too_large attempted code subcode) = true
is_too_large e = false

-- What the loop over rejected page sizes ends with.
pub data PageOutcome : Type 0 where
  got : (page_size : ℕ) → MetaMediaResponse → Option RateLimitUsage → PageOutcome
  stopped : MetaError → PageOutcome
  out_of_fuel : PageOutcome

pub data Next : Type 0 where
  page : MediaPage → Walk → Next
  finished : Next
  failed : MetaError → Next
  stuck : Next

abbrev pub after_of : Option MetaPaging → Option String
after_of none = none
after_of (some p) = p.after

abbrev pub next_of : Option MetaPaging → Option String
next_of none = none
next_of (some p) = p.next

-- The rest of the loop's body after a response, up to the `yield`.
unfoldable pub yield_page : Walk → MetaMediaResponse → Option RateLimitUsage → Next
yield_page walk body usage =
    let cursor = after_of body.paging in
    let has_more = truthy (next_of body.paging) && truthy cursor in
    let count = length body.data_items in
    page
      (record {
        items = body.data_items;
        page_number = walk.page_number + 1;
        next_cursor = if has_more then cursor else none;
        rate_limit = usage;
      })
      (record walk {
        phase = after_page has_more count cursor usage;
        page_number = walk.page_number + 1;
        yielded = walk.yielded + count;
      })

abbrev pub first_id : String → List String → Outcome String
first_id name [] = threw (hashtag_not_found name)
first_id name (id ∷ ids) = returned id none

module _ {W : Type 0} (net : Net W) (config : Config) (parse : JsonParse)
    (is_url : String → Bool) where
  unfoldable pub resolve_hashtag_id : String → W → ClientState → W × ClientState × Outcome String
  unfolding build_url
  resolve_hashtag_id name w c =
      let url =
        build_url config "ig_hashtag_search"
          (("user_id", word config.ig_user_id) ∷ ("q", word name) ∷ []) in
      let (w1, c1, outcome) = request net config parse url meta_hashtag_search_response w c in
      (w1, c1, elim outcome [ returned ids usage ↦ first_id name ids | threw e ↦ threw e ])

  -- One turn of the loop until a page is accepted: a rejected size is halved.
  unfoldable pub fetch_page :
      ℕ → PaginateOptions → Walk → W → ClientState → W × ClientState × PageOutcome
  fetch_page zero options walk w c = (w, c, out_of_fuel)
  fetch_page (suc fuel) options walk w c =
      let (w1, c1, outcome) =
        request net config parse (page_url config options walk) (meta_media_response is_url) w c in
      let limit = limit_for options walk in
      let smaller = fetch_page fuel options (record walk { page_size = max 1 (limit / 2) }) w1 c1 in
      elim outcome [
        | returned body usage ↦
            (w1, learn_page_size options.edge walk.page_size c1, got walk.page_size body usage)
        | threw e ↦ if is_too_large e && ltb 1 limit then smaller else (w1, c1, stopped e)
      ]

  -- The test of the `while`, and its body up to the `yield`. The fuel is one more than the size
  -- that is tried first.
  unfoldable pub continue : PaginateOptions → Walk → W → ClientState → W × ClientState × Next
  continue options walk w c =
      let (w1, c1, outcome) = fetch_page (suc walk.page_size) options walk w c in
      if ltb walk.yielded options.max_items
      then elim outcome [
        | got size body usage ↦ (w1, c1, yield_page (record walk { page_size = size }) body usage)
        | stopped e ↦ (w1, c1, failed e)
        | out_of_fuel ↦ (w1, c1, stuck)
      ]
      else (w, c, finished)

  -- From one `next()` of the consumer to the following one.
  unfoldable pub next_page : PaginateOptions → Walk → W → ClientState → W × ClientState × Next
  next_page options walk w c = elim walk.phase [
    | start ↦ continue options walk w c
    | after_page has_more count cursor usage ↦
        let delay = throttle_delay_ms usage config.throttle_threshold_pct in
        let (w1, stop) = sleep net config parse delay w in
        let rest = continue options (record walk { cursor = cursor }) w1 c in
        if not has_more || count == 0
        then (w, c, finished)
        else if stop
        then (w1, c, failed aborted)
        else rest
  ]
