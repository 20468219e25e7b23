-- ===== src/Sync/Keys.antt =====
-- The unique keys of media_posts and of media_post_history (src/api/models) under the page loop of
-- HashtagSyncService.runSync (src/api/services/HashtagSyncService.ts).
use saral.Base.{
  ℕ, zero, suc, ◌+◌, ◌≡◌, refl, Option, List, String, arith, leb, Option-cases, inl, inr,
  Bool-cases,
}
use saral.Meta.Schema.{MetaMedia}
use saral.Meta.Client.Paginate.{
  PaginateOptions, MediaPage, Walk, Next, page, finished, failed, stuck, next_page,
}
use saral.Store.Media.{Observation, upsert_media, upsert_observation}
use saral.Store.Posts.{IsUnique, upsert_observation-IsUnique}
use saral.Store.History.{IsOnce, upsert_observation-IsOnce}
use saral.Store.Assets.{ensure_pending}
use saral.Store.Runs.{record_page, record_page_progress}
use saral.Caption.Parser.{parse_caption_arrays}
use saral.Meta.Timestamp.{parse_meta_timestamp}
use saral.Sync.State.{World, Runtime, Result-cases}
use saral.Sync.Items.{
  PageTally, no_tally, RunContext, read_clock, count_result, enqueue_download, ensure_download,
  sync_item, sync_items,
}
use saral.Sync.Pages.{Progress, finish_page, write_raw, sync_page, sync_pages}
use saral.Sync.Frame.{sync_items-lift}

-- The keys stay unique.
abbrev pub KeepsKeys : {W : Type 0} → World W → World W → Type 0
KeepsKeys s s' =
    (IsUnique s.db.media_posts → IsUnique s'.db.media_posts)
    × (IsOnce s.db.media_post_history → IsOnce s'.db.media_post_history)

module _ {W : Type 0} (rt : Runtime W) (run : RunContext) where
  abbrev SamePosts : World W → World W → Type 0
  SamePosts s s' =
      (s'.db.media_posts ≡ s.db.media_posts) × (s'.db.media_post_history ≡ s.db.media_post_history)

  ensure_download-posts :
      (url : Option String) (media_id : ℕ) (t : PageTally) (s : World W)
      → SamePosts s (ensure_download rt run url media_id t s).0
  unfolding ensure_download ensure_pending enqueue_download
  ensure_download-posts url media_id t s = ground arith

  sync_item-keys :
      (item : MetaMedia) (rank : ℕ) (t : PageTally) (s : World W)
      → KeepsKeys s (sync_item rt run item rank t s).0
  unfolding sync_item upsert_media
  sync_item-keys item rank t s =
      elim (Option-cases (parse_meta_timestamp rt.parse_date item.timestamp)) [
        | inl h ↦ rw (h, sync_item) (λ u. u, λ o. o)
        | inr (x, h) ↦
            let (s1, now) = read_clock rt run s in
            let o : Observation = record {
              input = record {
                media = item;
                hashtag_id = run.hashtag_id;
                sync_run_id = run.run_id;
                source = run.kind;
                rank = rank;
              };
              taken_at = x;
              now = now;
              caption_hashtags = (parse_caption_arrays rt.in_word rt.to_lower_case item.caption).0;
              caption_mentions = (parse_caption_arrays rt.in_word rt.to_lower_case item.caption).1;
            } in
            let (db, r) = upsert_observation o s1.db in
            let same =
              ensure_download-posts item.media_url r.id (count_result r t)
                (record s1 { db = db }) in
            rw (h, sync_item)
              (
                λ u. rw same.0 (upsert_observation-IsUnique o s1.db "" u).0,
                λ u. rw same.1 (upsert_observation-IsOnce o s1.db u),
              )
      ]

  KeepsKeys-trans : (a b c : World W) → KeepsKeys a b → KeepsKeys b c → KeepsKeys a c
  KeepsKeys-trans a b c h k = (λ u. k.0 (h.0 u), λ u. k.1 (h.1 u))

  sync_items-keys :
      (items : List MetaMedia) (rank : ℕ) (t : PageTally) (s : World W)
      → KeepsKeys s (sync_items rt run items rank t s).0
  sync_items-keys =
      sync_items-lift rt run KeepsKeys (λ s. (λ u. u, λ u. u)) KeepsKeys-trans sync_item-keys

module _ {W : Type 0} (rt : Runtime W) (run : RunContext) (max_items : ℕ) where
  sync_page-keys :
      (p : MediaPage) (acc : Progress) (s : World W)
      → KeepsKeys s (sync_page rt run max_items p acc s).0
  unfolding sync_page finish_page record_page_progress record_page
  sync_page-keys p acc s =
      let raw = write_raw rt run max_items p acc.items_seen s in
      let kept = sync_items-keys rt run p.items (acc.items_seen + 1) no_tally raw in
      elim (Result-cases (sync_items rt run p.items (acc.items_seen + 1) no_tally raw).1) [
        | inl (e, h) ↦ rw (h, sync_page) kept
        | inr (t, h) ↦ rw (h, sync_page) kept
      ]

  abbrev Kept : World W → Type 0
  Kept s' = IsUnique s'.db.media_posts × IsOnce s'.db.media_post_history

  -- However the loop over the pages of a sync goes and ends, an Instagram id has at most one row
  -- of media_posts and a post at most one history row of a run after it, if that is so before it.
  pub sync_pages-keys :
      (fuel : ℕ) (options : PaginateOptions) (walk : Walk) (acc : Progress) (s : World W)
      → IsUnique s.db.media_posts
      → IsOnce s.db.media_post_history
      → let db' = (sync_pages rt run max_items fuel options walk acc s).0.db in
        IsUnique db'.media_posts × IsOnce db'.media_post_history
  unfolding sync_pages
  sync_pages-keys zero options walk acc s u o = (u, o)
  sync_pages-keys (suc fuel) options walk acc s u o =
      split (λ walk' acc' s2 v p. sync_pages-keys fuel options walk' acc' s2 v p)
        (next_page rt.net rt.config rt.json_parse rt.is_url options walk s.outside s.client).2 refl
    where
      split :
          ((walk' : Walk) (acc' : Progress) (s2 : World W)
            → IsUnique s2.db.media_posts
            → IsOnce s2.db.media_post_history
            → Kept (sync_pages rt run max_items fuel options walk' acc' s2).0)
          → (next : Next)
          → (next_page rt.net rt.config rt.json_parse rt.is_url options walk s.outside s.client).2
            ≡ next
          → Kept (sync_pages rt run max_items (suc fuel) options walk acc s).0
      split rest finished e = rw (e, sync_pages) (u, o)
      split rest (failed x) e = rw (e, sync_pages) (u, o)
      split rest stuck e = rw (e, sync_pages) (u, o)
      split rest (page p walk') e =
          let (outside, client, _) =
            next_page rt.net rt.config rt.json_parse rt.is_url options walk s.outside s.client in
          let s1 : World W = record s { outside = outside; client = client } in
          let (s2, acc', stop) = sync_page rt run max_items p acc s1 in
          let kept = sync_page-keys p acc s1 in
          elim (Option-cases stop) [
            | inr (x, h) ↦ rw (e, sync_pages) (rw (h, sync_pages) (kept.0 u, kept.1 o))
            | inl h ↦ elim (Bool-cases (leb max_items acc'.items_seen)) [
              | inl full ↦ rw (e, sync_pages) (rw (h, full, sync_pages) (kept.0 u, kept.1 o))
              | inr room ↦
                  rw (e, sync_pages)
                    (rw (h, room, sync_pages) (rest walk' acc' s2 (kept.0 u) (kept.1 o)))
            ]
          ]
