-- ===== src/Sync/Pages.antt =====
-- The page loop of HashtagSyncService.runSync (src/api/services/HashtagSyncService.ts).
use saral.Base.{ℕ, zero, suc, ◌+◌, Bool, true, Option, none, some, leb, if◌then◌else◌, length}
use saral.Meta.Client.Paginate.{
  PaginateOptions, MediaPage, Walk, page, finished, failed, stuck, next_page,
}
use saral.Store.Runs.{record_page, record_page_progress}
use saral.Sync.State.{World, SyncError, meta, out_of_fuel, Runtime, ok, err}
use saral.Sync.Items.{PageTally, no_tally, RunContext, read_clock, sync_items}

-- The counters of the run.
pub record Progress : Type 0 where
  pub items_seen : ℕ
  pub items_new : ℕ
  pub asset_jobs_enqueued : ℕ
  pub hit_item_cap : Bool

module _ {W : Type 0} (rt : Runtime W) (run : RunContext) (max_items : ℕ) where
  -- The counters and the row of the run after a page whose items are all written.
  unfoldable pub finish_page : MediaPage → PageTally → Progress → World W → World W × Progress
  finish_page p t acc s =
      let count = length p.items in
      (
        record s {
          db =
              record_page_progress run.run_id
                (record {
                  items_seen = count;
                  items_new = t.page_new;
                  items_updated = t.page_updated;
                  metrics_recorded = t.page_history;
                  asset_jobs_enqueued = t.page_asset_jobs;
                  last_cursor = p.next_cursor;
                  rate_limit = p.rate_limit;
                })
                s.db;
        },
        record acc {
          items_seen = acc.items_seen + count;
          items_new = acc.items_new + t.page_new;
          asset_jobs_enqueued = acc.asset_jobs_enqueued + t.page_asset_jobs;
        },
      )

  -- `DataPointRepository.recordPage`.
  abbrev pub write_raw : MediaPage → (offset : ℕ) → World W → World W
  write_raw p offset s =
      let (s1, now) = read_clock rt run s in
      record s1 {
        db = record_page now run.run_id run.hashtag_id run.kind p.page_number offset p.items s1.db;
      }

  -- The body of the loop: the raw rows, the items, and the cursor last. An error leaves the counters
  -- as they were before the page.
  unfoldable pub sync_page : MediaPage → Progress → World W → World W × Progress × Option SyncError
  sync_page p acc s =
      let (s2, r) =
        sync_items rt run p.items (acc.items_seen + 1) no_tally (write_raw p acc.items_seen s) in
      elim r [
        | err e ↦ (s2, acc, some e)
        | ok t ↦ let (s3, acc') = finish_page p t acc s2 in (s3, acc', none)
      ]

  -- `for await (const page of …)`, with fuel.
  unfoldable pub sync_pages :
      ℕ → PaginateOptions → Walk → Progress → World W → World W × Progress × Option SyncError
  sync_pages zero options walk acc s = (s, acc, some out_of_fuel)
  sync_pages (suc fuel) options walk acc s =
      let (outside, client, next) =
        next_page rt.net rt.config rt.json_parse rt.is_url options walk s.outside s.client in
      let s1 : World W = record s { outside = outside; client = client } in
      elim next [
        | finished ↦ (s1, acc, none)
        | failed e ↦ (s1, acc, some (meta e))
        | stuck ↦ (s1, acc, some out_of_fuel)
        | page p walk' ↦
            let (s2, acc', stopped) = sync_page p acc s1 in
            elim stopped [
              | some e ↦ (s2, acc', some e)
              | none ↦
                  let rest = sync_pages fuel options walk' acc' s2 in
                  if leb max_items acc'.items_seen
                  then (s2, record acc' { hit_item_cap = true }, none)
                  else rest
            ]
      ]
