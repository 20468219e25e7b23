-- ===== src/Sync/Locks.antt =====
-- The advisory lock around a sync (src/api/services/HashtagSyncService.ts,
-- src/database/advisoryLock.ts).
use saral.Base.{
  ℕ, zero, suc, ◌+◌, ◌≡◌, refl, ◌∙◌, ◌⊎◌, inl, inr, true, false, Option, none, some, ◌∷◌, String,
  arith, ==_refl, Option-cases,
}
use saral.Meta.Client.Paginate.{
  PaginateOptions, MediaPage, Walk, Next, page, finished, failed, stuck, next_page, start_walk,
  or_default,
}
use saral.Store.Tables.{Hashtag, SyncRun}
use saral.Store.Hashtags.{find_hashtag}
use saral.Sync.State.{World, SyncError, Runtime, SyncOptions, ok, Result-cases}
use saral.Sync.Items.{no_tally, RunContext}
use saral.Sync.Pages.{Progress, finish_page, write_raw, sync_page, sync_pages}
use saral.Sync.Frame.{sync_items-frame}
use saral.Sync.Service.{
  holds, ensure_ig_id, claim_run, context_of, first_progress, paginate_options, walk_pages, close,
  run_claimed, run_sync, skipped_outcome, sync,
}

module _ {W : Type 0} (rt : Runtime W) (run : RunContext) (max_items : ℕ) where
  sync_page-locks :
      (p : MediaPage) (acc : Progress) (s : World W)
      → (sync_page rt run max_items p acc s).0.locks ≡ s.locks
  unfolding sync_page finish_page
  sync_page-locks p acc s =
      let raw = write_raw rt run max_items p acc.items_seen s in
      ground (arith, sync_items-frame rt run p.items (acc.items_seen + 1) no_tally raw)

  sync_pages-locks :
      (fuel : ℕ) (options : PaginateOptions) (walk : Walk) (acc : Progress) (s : World W)
      → (sync_pages rt run max_items fuel options walk acc s).0.locks ≡ s.locks
  unfolding sync_pages
  sync_pages-locks zero options walk acc s = refl
  sync_pages-locks (suc fuel) options walk acc s =
      split (λ walk' acc' s2. sync_pages-locks fuel options walk' acc' s2)
        (next_page rt.net rt.config rt.json_parse rt.is_url options walk s.outside s.client).2 refl
    where
      split :
          ((walk' : Walk) (acc' : Progress) (s2 : World W)
            → (sync_pages rt run max_items fuel options walk' acc' s2).0.locks ≡ s2.locks)
          → (next : Next)
          → (next_page rt.net rt.config rt.json_parse rt.is_url options walk s.outside s.client).2
            ≡ next
          → (sync_pages rt run max_items (suc fuel) options walk acc s).0.locks ≡ s.locks
      split rest finished e = rw (e, sync_pages) refl
      split rest (failed x) e = rw (e, sync_pages) refl
      split rest stuck e = rw (e, sync_pages) refl
      split rest (page p walk') e =
          let (outside, client, _) =
            next_page rt.net rt.config rt.json_parse rt.is_url options walk s.outside s.client in
          let s1 : World W = record s { outside = outside; client = client } in
          let (s2, acc', stop) = sync_page rt run max_items p acc s1 in
          let kept = sync_page-locks p acc s1 in
          let deeper = rest walk' acc' s2 in rw (e, sync_pages) (ground arith)

module _ {W : Type 0} (rt : Runtime W) where
  ensure_ig_id-locks : (h : Hashtag) (s : World W) → (ensure_ig_id rt h s).0.locks ≡ s.locks
  unfolding ensure_ig_id
  ensure_ig_id-locks h s = ground arith

  claim_run-locks :
      (options : SyncOptions) (s : World W) → (claim_run rt options s).0.locks ≡ s.locks
  unfolding claim_run
  claim_run-locks options s = ground arith

  close-locks :
      (options : SyncOptions) (run : SyncRun) (acc : Progress) (stop : Option SyncError)
      (s : World W)
      → (close rt options run acc stop s).0.locks ≡ s.locks
  unfolding close
  close-locks options run acc none s = refl
  close-locks options run acc (some e) s = refl

  run_claimed-locks :
      (options : SyncOptions) (h : Hashtag) (ig : String) (s : World W)
      → (run_claimed rt options h ig s).0.locks ≡ s.locks
  unfolding run_claimed walk_pages
  run_claimed-locks options h ig s =
      let (s1, run) = claim_run rt options s in
      let (s2, acc, stop) = walk_pages rt options h ig run s1 in
      let opts = paginate_options rt options h ig run in
      close-locks options run acc stop s2
      ∙ sync_pages-locks rt (context_of rt options run)
          (or_default h.max_media_per_sync rt.sync_max_media_per_run) (suc (suc opts.max_items))
          opts (start_walk rt.config opts s1.client) (first_progress rt run) s1
      ∙ claim_run-locks options s

  run_sync-locks : (options : SyncOptions) (s : World W) → (run_sync rt options s).0.locks ≡ s.locks
  unfolding run_sync
  run_sync-locks options s = elim (Option-cases (find_hashtag options.hashtag_id s.db)) [
    | inl h ↦ rw (h, run_sync) refl
    | inr (tag, h) ↦
        let (s1, r) = ensure_ig_id rt tag s in
        let kept = ensure_ig_id-locks tag s in
        elim (Result-cases r) [
          | inl (e, k) ↦ rw (h, run_sync) (rw k kept)
          | inr (ig, k) ↦ rw (h, run_sync) (rw k (run_claimed-locks options tag ig s1 ∙ kept))
        ]
  ]

  -- A sync leaves the held locks as it found them, whether it succeeds, fails or is skipped: it gives
  -- back the lock of its hashtag and edge, and no other. While another holder has that lock it
  -- changes nothing at all, reports the run as skipped and sends no request; else it ends as the run
  -- under the lock ends.
  pub sync-locks :
      (options : SyncOptions) (s : World W)
      → let key = rt.lock_key options.kind options.hashtag_id in
        ((sync rt options s).0.locks ≡ s.locks)
        × (((holds key s.locks ≡ true) × (sync rt options s ≡ (s, ok (skipped_outcome rt))))
            ⊎ ((holds key s.locks ≡ false)
                × ((sync rt options s).1
                    ≡ (run_sync rt options (record s { locks = key ∷ s.locks })).1)))
  unfolding sync
  sync-locks options s =
      let key = rt.lock_key options.kind options.hashtag_id in
      let locked : World W = record s { locks = key ∷ s.locks } in
      ground (arith, run_sync-locks options locked, ==_refl key)
