-- ===== src/Sync/Items.antt =====
-- The inner loop of HashtagSyncService.runSync (src/api/services/HashtagSyncService.ts): the items of
-- one page.
use saral.Base.{
  ℕ, ◌+◌, Bool, true, false, ◌&&◌, Option, none, some, List, [], ◌∷◌, String, if◌then◌else◌,
}
use saral.Jobs.{SyncKind, Job}
use saral.Queue.Memory.{enqueue}
use saral.Meta.Schema.{MetaMedia}
use saral.Meta.Client.Paginate.{truthy}
use saral.Store.Media.{UpsertMediaResult, upsert_media}
use saral.Store.Assets.{ensure_pending}
use saral.Caption.Parser.{parse_caption_arrays}
use saral.Meta.Timestamp.{parse_meta_timestamp}
use saral.Sync.State.{World, unparseable_timestamp, queue_is_closed, Runtime, Result, ok, err}

pub record PageTally : Type 0 where
  pub page_new : ℕ
  pub page_updated : ℕ
  pub page_history : ℕ
  pub page_asset_jobs : ℕ

abbrev pub no_tally : PageTally
no_tally = record { page_new = 0; page_updated = 0; page_history = 0; page_asset_jobs = 0 }

abbrev pub one_if : Bool → ℕ
one_if true = 1
one_if false = 0

abbrev pub count_result : UpsertMediaResult → PageTally → PageTally
count_result r t = record t {
  page_new = t.page_new + one_if r.is_new;
  page_updated = t.page_updated + one_if r.content_changed;
  page_history = t.page_history + one_if r.history_recorded;
}

-- The run that the items belong to.
pub record RunContext : Type 0 where
  pub run_id : ℕ
  pub hashtag_id : ℕ
  pub kind : SyncKind

module _ {W : Type 0} (rt : Runtime W) (run : RunContext) where
  -- The clock, read in the world outside.
  abbrev pub read_clock : World W → World W × ℕ
  read_clock s = let (outside, now) = rt.clock s.outside in (record s { outside = outside }, now)

  -- `this.queue.enqueue(…)` of a download job.
  unfoldable pub enqueue_download :
      (media_id : ℕ) → PageTally → World W → World W × Result PageTally
  enqueue_download media_id t s =
      let (s1, now) = read_clock s in
      elim (enqueue now (Job.download_media_asset media_id) 0 s1.queue) [
        | none ↦ (s1, err queue_is_closed)
        | some (queue, id) ↦
            (record s1 { queue = queue }, ok (record t { page_asset_jobs = t.page_asset_jobs + 1 }))
      ]

  -- The asset row, and the download job if there is a new file to fetch.
  unfoldable pub ensure_download :
      Option String → (media_id : ℕ) → PageTally → World W → World W × Result PageTally
  ensure_download media_url media_id t s =
      let (s1, now) = read_clock s in
      let (db, asset_id, created) = ensure_pending now media_id media_url s1.db in
      let s2 : World W = record s1 { db = db } in
      let queued = enqueue_download media_id t s2 in
      if created && truthy media_url then queued else (s2, ok t)

  -- One item; the position in the response is its rank.
  unfoldable pub sync_item :
      MetaMedia → (rank : ℕ) → PageTally → World W → World W × Result PageTally
  sync_item item rank t s =
      let (s1, now) = read_clock s in
      elim (upsert_media (parse_meta_timestamp rt.parse_date)
        (parse_caption_arrays rt.in_word rt.to_lower_case) now
        (record {
          media = item;
          hashtag_id = run.hashtag_id;
          sync_run_id = run.run_id;
          source = run.kind;
          rank = rank;
        })
        s1.db) [
          | none ↦ (s1, err unparseable_timestamp)
          | some (db, r) ↦
              ensure_download item.media_url r.id (count_result r t) (record s1 { db = db })
        ]

  -- The first error ends the loop; what was written stays written.
  unfoldable pub sync_items :
      List MetaMedia → (rank : ℕ) → PageTally → World W → World W × Result PageTally
  sync_items [] rank t s = (s, ok t)
  sync_items (item ∷ items) rank t s =
      let (s1, r) = sync_item item rank t s in
      elim r [ err e ↦ (s1, err e) | ok t1 ↦ sync_items items (rank + 1) t1 s1 ]
