-- ===== src/Sync/Fuel.antt =====
-- The page loop of HashtagSyncService.runSync (src/api/services/HashtagSyncService.ts) ends.
use saral.Base.{
  ℕ, zero, suc, ◌+◌, ◌-◌, ◌≤◌, ◌<◌, ◌≡◌, refl, ◌≢◌, inl, inr, not, ◌||◌, some, List, [], ◌∷◌,
  String, arith, ◌==◌, if◌then◌else◌,
}
use saral.Meta.RateLimit.Usage.{throttle_delay_ms}
use saral.Meta.Schema.{MetaMedia}
use saral.Meta.Client.Net.{ClientState}
use saral.Meta.Client.Request.{sleep}
use saral.Meta.Client.Paginate.{
  PaginateOptions, MediaPage, Walk, Phase, start, after_page, Next, page, finished, failed, stuck,
  or_default, start_walk, yield_page, continue, next_page,
}
use saral.Meta.Client.Walk.{next_page-ne-stuck}
use saral.Store.Tables.{Hashtag, SyncRun}
use saral.Sync.State.{World, out_of_fuel, Runtime, SyncOptions, err, Result-cases}
use saral.Sync.Items.{
  PageTally, no_tally, RunContext, enqueue_download, ensure_download, sync_item, sync_items,
}
use saral.Sync.Pages.{Progress, write_raw, sync_page, sync_pages}
use saral.Sync.Service.{walk_pages, paginate_options, context_of, first_progress}

-- The turns that a generator has left at most.
abbrev pub turns_left : PaginateOptions → Walk → ℕ
turns_left options walk = elim walk.phase [
  | start ↦ suc (options.max_items - walk.yielded)
  | after_page has_more count cursor usage ↦
      if not has_more || count == 0 then 1 else suc (options.max_items - walk.yielded)
]

module _ {W : Type 0} (rt : Runtime W) (options : PaginateOptions) where
  continue-turns :
      (walk : Walk) (w : W) (c : ClientState) (p : MediaPage) (walk' : Walk)
      → (continue rt.net rt.config rt.json_parse rt.is_url options walk w c).2 ≡ page p walk'
      → turns_left options walk' < suc (options.max_items - walk.yielded)
  unfolding continue yield_page
  continue-turns walk w c p walk' h = ground arith

  -- A page that adds an item leaves less to add, and after an empty page the generator ends.
  next_page-turns :
      (walk : Walk) (w : W) (c : ClientState) (p : MediaPage) (walk' : Walk)
      → (next_page rt.net rt.config rt.json_parse rt.is_url options walk w c).2 ≡ page p walk'
      → turns_left options walk' < turns_left options walk
  unfolding next_page
  next_page-turns walk w c p walk' h = split walk.phase refl
    where
      split :
          (phase : Phase) → walk.phase ≡ phase → turns_left options walk' < turns_left options walk
      split start e = rw e (continue-turns walk w c p walk' (rw (e, next_page) at h))
      split (after_page has_more count cursor usage) e =
          let w1 =
            (sleep rt.net rt.config rt.json_parse
              (throttle_delay_ms usage rt.config.throttle_threshold_pct) w).0 in
          ground (arith, continue-turns (record walk { cursor = cursor }) w1 c p walk')

module _ {W : Type 0} (rt : Runtime W) (run : RunContext) where
  item-fueled :
      (item : MetaMedia) (rank : ℕ) (t : PageTally) (s : World W)
      → (sync_item rt run item rank t s).1 ≢ err out_of_fuel
  unfolding sync_item ensure_download enqueue_download
  item-fueled item rank t s = ground arith

  items-fueled :
      (items : List MetaMedia) (rank : ℕ) (t : PageTally) (s : World W)
      → (sync_items rt run items rank t s).1 ≢ err out_of_fuel
  unfolding sync_items
  items-fueled [] rank t s = ground arith
  items-fueled (item ∷ items) rank t s =
      let s1 = (sync_item rt run item rank t s).0 in
      elim (Result-cases (sync_item rt run item rank t s).1) [
        | inl (e, h) ↦ ground (arith, item-fueled item rank t s)
        | inr (t1, h) ↦ rw (h, sync_items) (items-fueled items (rank + 1) t1 s1)
      ]

  sync_page-fueled :
      (max_items : ℕ) (p : MediaPage) (acc : Progress) (s : World W)
      → (sync_page rt run max_items p acc s).2 ≢ some out_of_fuel
  unfolding sync_page
  sync_page-fueled max_items p acc s =
      let raw = write_raw rt run max_items p acc.items_seen s in
      ground (arith, items-fueled p.items (acc.items_seen + 1) no_tally raw)

  sync_pages-fueled :
      (max_items fuel : ℕ) (options : PaginateOptions) (walk : Walk) (acc : Progress) (s : World W)
      → turns_left options walk ≤ fuel
      → (sync_pages rt run max_items fuel options walk acc s).2 ≢ some out_of_fuel
  unfolding sync_pages
  sync_pages-fueled max_items zero options walk acc s h = ground arith
  sync_pages-fueled max_items (suc fuel) options walk acc s h =
      let (outside, client, next) =
        next_page rt.net rt.config rt.json_parse rt.is_url options walk s.outside s.client in
      let s1 : World W = record s { outside = outside; client = client } in
      split (λ walk' acc' s2 k. sync_pages-fueled max_items fuel options walk' acc' s2 k) next refl
    where
      split :
          ((walk' : Walk) (acc' : Progress) (s2 : World W)
            → turns_left options walk' ≤ fuel
            → (sync_pages rt run max_items fuel options walk' acc' s2).2 ≢ some out_of_fuel)
          → (next : Next)
          → (next_page rt.net rt.config rt.json_parse rt.is_url options walk s.outside s.client).2
            ≡ next
          → (sync_pages rt run max_items (suc fuel) options walk acc s).2 ≢ some out_of_fuel
      split rest finished e = rw (e, sync_pages) (ground arith)
      split rest (failed x) e = rw (e, sync_pages) (ground arith)
      split rest stuck e =
          elim (next_page-ne-stuck rt.net rt.config rt.json_parse rt.is_url options walk s.outside
            s.client e) [ ]
      split rest (page p walk') e =
          let (outside, client, _) =
            next_page rt.net rt.config rt.json_parse rt.is_url options walk s.outside s.client in
          let s1 : World W = record s { outside = outside; client = client } in
          let (s2, acc', stop) = sync_page rt run max_items p acc s1 in
          let fewer = next_page-turns rt options walk s.outside s.client p walk' e in
          let safe = sync_page-fueled max_items p acc s1 in
          let deeper = rest walk' acc' s2 (omega arith) in rw (e, sync_pages) (ground arith)

module _ {W : Type 0} (rt : Runtime W) where
  -- The loop over the pages of a sync always ends: at the last page, at the cap or at an error,
  -- whatever Meta answers. It never uses up its fuel, which is two more than the items left to the cap.
  pub walk_pages-fueled :
      (options : SyncOptions) (h : Hashtag) (ig : String) (run : SyncRun) (s : World W)
      → (walk_pages rt options h ig run s).2 ≢ some out_of_fuel
  unfolding walk_pages start_walk
  walk_pages-fueled options h ig run s =
      let opts = paginate_options rt options h ig run in
      sync_pages-fueled rt (context_of rt options run)
        (or_default h.max_media_per_sync rt.sync_max_media_per_run) (suc (suc opts.max_items)) opts
        (start_walk rt.config opts s.client) (first_progress rt run) s (omega arith)
