-- ===== src/Meta/Client/Walk.antt =====
-- How paginateMedia (src/lib/meta/MetaGraphClient.ts) negotiates the page size and keeps the cap.
use saral.Base.{ℕ, zero, suc, ◌/◌, ◌<◌, ◌≡◌, refl, ◌≢◌, max, Bool, arith, String}
use saral.Meta.RateLimit.Usage.{JsonParse, throttle_delay_ms}
use saral.Meta.Client.Net.{Net, ClientState, Config}
use saral.Meta.Client.Request.{sleep, request}
use saral.Meta.Schema.{meta_media_response}
use saral.Meta.Client.Paginate.{
  PaginateOptions, Walk, Phase, start, after_page, limit_for, page_url, out_of_fuel, stuck,
  yield_page, fetch_page, continue, next_page,
}

module _ {W : Type 0} (net : Net W) (config : Config) (parse : JsonParse)
    (is_url : String → Bool) where
  -- A rejected limit is above one, and the next is at most its half, so that a fuel above the limit
  -- is never used up.
  fetch_page-ne-out_of_fuel :
      (fuel : ℕ) (options : PaginateOptions) (walk : Walk) (w : W) (c : ClientState)
      → limit_for options walk < fuel
      → (fetch_page net config parse is_url fuel options walk w c).2 ≢ out_of_fuel
  unfolding fetch_page
  fetch_page-ne-out_of_fuel zero options walk w c h = elim h [ ]
  fetch_page-ne-out_of_fuel (suc fuel) options walk w c h =
      let limit = limit_for options walk in
      let (w1, c1, outcome) =
        request net config parse (page_url config options walk) (meta_media_response is_url) w c in
      ground (
        arith,
        fetch_page-ne-out_of_fuel fuel options (record walk { page_size = max 1 (limit / 2) }) w1
            c1,
      )

  continue-ne-stuck :
      (options : PaginateOptions) (walk : Walk) (w : W) (c : ClientState)
      → (continue net config parse is_url options walk w c).2 ≢ stuck
  unfolding continue yield_page
  continue-ne-stuck options walk w c =
      ground (arith, fetch_page-ne-out_of_fuel (suc walk.page_size) options walk w c (omega arith))

  -- Every `next()` of the generator ends: with a page, at the end, or with an error. The
  -- negotiation of the page size never runs out of the fuel that it is given.
  pub next_page-ne-stuck :
      (options : PaginateOptions) (walk : Walk) (w : W) (c : ClientState)
      → (next_page net config parse is_url options walk w c).2 ≢ stuck
  unfolding next_page
  next_page-ne-stuck options walk w c = split walk.phase refl
    where
      split :
          (phase : Phase)
          → walk.phase ≡ phase
          → (next_page net config parse is_url options walk w c).2 ≢ stuck
      split start e = rw (e, next_page) (continue-ne-stuck options walk w c)
      split (after_page has_more count cursor usage) e = ground (
        arith,
        continue-ne-stuck options (record walk { cursor = cursor })
            (sleep net config parse (throttle_delay_ms usage config.throttle_threshold_pct) w).0 c,
      )
