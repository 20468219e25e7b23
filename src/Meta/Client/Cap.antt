-- ===== src/Meta/Client/Cap.antt =====
-- How paginateMedia (src/lib/meta/MetaGraphClient.ts) counts what it yields, and keeps the cap.
use saral.Base.{
  ℕ, zero, suc, ◌+◌, ◌-◌, ◌/◌, ◌≤◌, ◌≡◌, refl, max, Bool, Option, arith, String, length,
}
use saral.Meta.RateLimit.Usage.{RateLimitUsage, JsonParse, throttle_delay_ms}
use saral.Meta.Client.Net.{Net, ClientState, Config}
use saral.Meta.Client.Request.{returned, sleep, request}
use saral.Meta.Schema.{MetaMediaResponse, meta_media_response}
use saral.Meta.Client.Paginate.{
  PaginateOptions, MediaPage, Walk, Phase, start, after_page, limit_for, page_url, PageOutcome, got,
  page, yield_page, fetch_page, continue, next_page,
}

module _ {W : Type 0} (net : Net W) (config : Config) (parse : JsonParse)
    (is_url : String → Bool) where
  -- Meta answers a page with at most as many items as the request's `limit` asks for.
  abbrev pub KeepsLimit : PaginateOptions → Type 0
  KeepsLimit options =
      (walk : Walk) (w w' : W) (c c' : ClientState) (body : MetaMediaResponse)
      (usage : Option RateLimitUsage)
      → request net config parse (page_url config options walk) (meta_media_response is_url) w c
        ≡ (w', c', returned body usage)
      → length body.data_items ≤ limit_for options walk

  module _ (options : PaginateOptions) (keeps : KeepsLimit options) where
    fetch_page-cap :
        (fuel : ℕ) (walk : Walk) (w : W) (c : ClientState) (size : ℕ) (body : MetaMediaResponse)
        (usage : Option RateLimitUsage)
        → (fetch_page net config parse is_url fuel options walk w c).2 ≡ got size body usage
        → length body.data_items ≤ options.max_items - walk.yielded
    unfolding fetch_page
    fetch_page-cap zero walk w c size body usage h = cc
    fetch_page-cap (suc fuel) walk w c size body usage h =
        let limit = limit_for options walk in
        let answer =
          request net config parse (page_url config options walk) (meta_media_response is_url) w
            c in
        ground (
          arith,
          fetch_page-cap fuel (record walk { page_size = max 1 (limit / 2) }) answer.0 answer.1 size
              body usage,
          keeps walk w answer.0 c answer.1 body usage,
        )

    -- What a step that yields a page has done to the count.
    abbrev pub CountsPage : Walk → MediaPage → Walk → Type 0
    CountsPage walk p walk' =
        (walk'.yielded ≡ walk.yielded + length p.items)
        × (walk'.yielded ≤ options.max_items)
        × (p.page_number ≡ walk.page_number + 1)
        × (walk'.page_number ≡ walk.page_number + 1)

    continue-cap :
        (walk : Walk) (w : W) (c : ClientState) (p : MediaPage) (walk' : Walk)
        → (continue net config parse is_url options walk w c).2 ≡ page p walk'
        → CountsPage walk p walk'
    unfolding continue yield_page
    continue-cap walk w c p walk' h =
        fetched (fetch_page net config parse is_url (suc walk.page_size) options walk w c).2 refl
      where
        fetched :
            (o : PageOutcome)
            → (fetch_page net config parse is_url (suc walk.page_size) options walk w c).2 ≡ o
            → CountsPage walk p walk'
        fetched (got size body usage) e =
            ground (arith, fetch_page-cap (suc walk.page_size) walk w c size body usage e)
        fetched o e = ground arith

    -- If Meta keeps the limit that it is asked for, each page that the generator yields is numbered
    -- one above the one before, its items are counted, and all that is yielded stays within
    -- `maxItems`.
    pub next_page-cap :
        (walk : Walk) (w : W) (c : ClientState) (p : MediaPage) (walk' : Walk)
        → (next_page net config parse is_url options walk w c).2 ≡ page p walk'
        → CountsPage walk p walk'
    unfolding next_page
    next_page-cap walk w c p walk' h = split walk.phase refl
      where
        split : (phase : Phase) → walk.phase ≡ phase → CountsPage walk p walk'
        split start e = continue-cap walk w c p walk' (rw (e, next_page) at h)
        split (after_page has_more count cursor usage) e =
            let w1 =
              (sleep net config parse (throttle_delay_ms usage config.throttle_threshold_pct)
                w).0 in
            ground (arith, continue-cap (record walk { cursor = cursor }) w1 c p walk')
