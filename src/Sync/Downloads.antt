-- ===== src/Sync/Downloads.antt =====
-- When the item loop of HashtagSyncService.runSync (src/api/services/HashtagSyncService.ts) queues a
-- download, with MediaAssetRepository.ensurePending.
use saral.Base.{
  ℕ, ◌+◌, ◌≡◌, refl, ◌∙◌, ◌⊎◌, inl, inr, Bool, true, false, ◌&&◌, Option, none, some, [], ◌∷◌, ◌++◌,
  String, arith, Option-cases, Bool-cases,
}
use saral.Jobs.{Job}
use saral.Queue.Memory.{Envelope, MemoryQueue, enqueue}
use saral.Meta.Client.Paginate.{truthy}
use saral.Store.Tables.{Database, MediaAsset}
use saral.Store.Rows.{find-append, find-update_where}
use saral.Store.Assets.{
  of_media, find_by_media_id, is_pending, new_asset, refresh_asset, ensure_pending,
}
use saral.Sync.State.{World, Runtime, ok}
use saral.Sync.Items.{PageTally, RunContext, read_clock, enqueue_download, ensure_download}

-- There is a file to fetch: Meta gives a URL, and the asset is new or still pending.
abbrev pub wants_download : Option MediaAsset → Option String → Bool
wants_download none url = truthy url
wants_download (some a) url = is_pending a.status && truthy url

-- The row of the media after the statement: a new one, or the one that was there, in its status and
-- with its hash.
abbrev pub KeepsAsset : Option MediaAsset → MediaAsset → Type 0
KeepsAsset none b = Unit
KeepsAsset (some a) b = (b.id ≡ a.id) × (b.status ≡ a.status) × (b.sha256 ≡ a.sha256)

ensure_pending-created :
    (now media_id : ℕ) (url : Option String) (db : Database)
    → ((ensure_pending now media_id url db).2 && truthy url)
      ≡ wants_download (find_by_media_id media_id db) url
unfolding ensure_pending new_asset
ensure_pending-created now media_id url db = elim (Option-cases (find_by_media_id media_id db)) [
  | inl h ↦ ground arith
  | inr (a, h) ↦ ground arith
]

ensure_pending-find :
    (now media_id : ℕ) (url : Option String) (db : Database)
    → (b : MediaAsset) × (find_by_media_id media_id (ensure_pending now media_id url db).0 ≡ some b)
      × (b.fetched_from_url ≡ url)
      × KeepsAsset (find_by_media_id media_id db) b
unfolding ensure_pending new_asset
ensure_pending-find now media_id url db =
    let p = of_media media_id in
    elim (Option-cases (find_by_media_id media_id db)) [
      | inl h ↦ rw h (
        new_asset db.drawn now media_id url,
        rw (h, ensure_pending) (find-append p db.media_assets _ h (ground arith)),
        refl,
        tt,
      )
      | inr (a, h) ↦ rw h (
        refresh_asset now url a,
        rw (h, ensure_pending)
            (find-update_where p (refresh_asset now url) (λ x. refl) db.media_assets a h),
        refl,
        (refl, refl, refl),
      )
    ]

module _ {W : Type 0} (rt : Runtime W) (run : RunContext) where
  -- The last message of a queue is a fresh download job of the media.
  abbrev pub QueuesDownload : ℕ → MemoryQueue → MemoryQueue → Type 0
  QueuesDownload media_id q q' =
      (e : Envelope) × (q'.messages ≡ q.messages ++ e ∷ [])
      × (e.job ≡ Job.download_media_asset media_id)
      × (e.received_count ≡ 0)

  queue_download :
      (media_id : ℕ) (t : PageTally) (s : World W)
      → s.queue.closed ≡ false
      → let (s', r) = enqueue_download rt run media_id t s in
        QueuesDownload media_id s.queue s'.queue
        × (s'.db ≡ s.db)
        × (r ≡ ok (record t { page_asset_jobs = t.page_asset_jobs + 1 }))
  unfolding enqueue_download enqueue
  queue_download media_id t s open_queue =
      rw (open_queue, enqueue_download) ((_, refl, refl, refl), refl, refl)

  -- On a queue that accepts messages, an item queues a download job of its post exactly if Meta gives
  -- a URL and the asset of the post is new or still pending; a file that is stored, failed, skipped or
  -- under way is not queued again, and then the queue and the tally are as they were. The asset
  -- has a row with the newest URL after it; one that was there keeps its id, its status and its hash.
  pub ensure_download-QueuesDownload :
      (url : Option String) (media_id : ℕ) (t : PageTally) (s : World W)
      → s.queue.closed ≡ false
      → let (s', r) = ensure_download rt run url media_id t s in
        let before = find_by_media_id media_id s.db in
        (((wants_download before url ≡ true)
            × QueuesDownload media_id s.queue s'.queue
            × (r ≡ ok (record t { page_asset_jobs = t.page_asset_jobs + 1 })))
          ⊎ ((wants_download before url ≡ false) × (s'.queue ≡ s.queue) × (r ≡ ok t)))
        × ((b : MediaAsset) × (find_by_media_id media_id s'.db ≡ some b)
            × (b.fetched_from_url ≡ url)
            × KeepsAsset before b)
  unfolding ensure_download
  ensure_download-QueuesDownload url media_id t s open_queue =
      let (s1, now) = read_clock rt run s in
      let db = (ensure_pending now media_id url s1.db).0 in
      let s2 : World W = record s1 { db = db } in
      let created = ensure_pending-created now media_id url s1.db in
      let row = ensure_pending-find now media_id url s1.db in
      elim (Bool-cases (wants_download (find_by_media_id media_id s.db) url)) [
        | inl wants ↦
            let (queues, kept, tallied) = queue_download media_id t s2 open_queue in
            rw (created ∙ wants, ensure_download) (inl (wants, queues, tallied), rw kept row)
        | inr not_wanted ↦
            rw (created ∙ not_wanted, ensure_download) (inr (not_wanted, refl, refl), row)
      ]
