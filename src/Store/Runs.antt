-- ===== src/Store/Runs.antt =====
-- src/api/repositories/SyncRunRepository.ts and DataPointRepository.ts.
use saral.Base.{
  ℕ, ◌+◌, ◌-◌, Bool, true, false, ◌&&◌, Option, none, some, List, [], ◌∷◌, ◌++◌, String, leb, ◌==◌,
  if◌then◌else◌, find, keep, length,
}
use saral.Jobs.{SyncKind, top, recent}
use saral.Meta.Schema.{MetaMedia}
use saral.Meta.RateLimit.Usage.{RateLimitUsage}
use saral.Store.Tables.{Database, SyncRun, DataPoint, RunStatus, running, update_where}
use saral.Store.Assets.{slice_from_start}

abbrev pub kind_eq : SyncKind → SyncKind → Bool
kind_eq top top = true
kind_eq recent recent = true
kind_eq _ _ = false

abbrev pub is_running : RunStatus → Bool
is_running running = true
is_running s = false

abbrev pub attempt_or_one : Option ℕ → ℕ
attempt_or_one none = 1
attempt_or_one (some n) = n

unfoldable pub start_run :
    (now : ℕ)
    → SyncKind
    → (hashtag_id : ℕ) → (message_id attempt : Option ℕ) → Database
    → Database × SyncRun
start_run now kind hashtag_id message_id attempt db =
    let row : SyncRun = record {
      id = db.drawn;
      type = kind;
      status = running;
      hashtag_id = hashtag_id;
      triggered_by_message_id = message_id;
      started_at = now;
      finished_at = none;
      duration_ms = none;
      pages_fetched = 0;
      items_seen = 0;
      items_new = 0;
      items_updated = 0;
      metrics_recorded = 0;
      asset_jobs_enqueued = 0;
      hit_item_cap = 0;
      rate_limit_snapshot = none;
      last_cursor = none;
      attempts = attempt_or_one attempt;
      error = none;
      created_at = now;
    } in
    (record db { sync_runs = db.sync_runs ++ row ∷ []; drawn = db.drawn + 1 }, row)

abbrev pub resumable : SyncKind → ℕ → SyncRun → Bool
resumable kind hashtag_id r =
    kind_eq r.type kind && r.hashtag_id == hashtag_id && is_running r.status

-- ORDER BY started_at DESC LIMIT 1; of equal times the last row.
unfoldable pub newest : List SyncRun → Option SyncRun → Option SyncRun
newest [] best = best
newest (r ∷ rs) none = newest rs (some r)
newest (r ∷ rs) (some b) = newest rs (some (if leb b.started_at r.started_at then r else b))

unfoldable pub find_resumable_run : SyncKind → ℕ → Database → Option SyncRun
unfolding newest
find_resumable_run kind hashtag_id db = newest (keep (resumable kind hashtag_id) db.sync_runs) none

pub record PageDelta : Type 0 where
  pub items_seen : ℕ
  pub items_new : ℕ
  pub items_updated : ℕ
  pub metrics_recorded : ℕ
  pub asset_jobs_enqueued : ℕ
  pub last_cursor : Option String
  pub rate_limit : Option RateLimitUsage

-- `...(v !== undefined ? { field: v } : {})`.
abbrev pub or_kept {ℓ} : {A : Type ℓ} → Option A → Option A → Option A
or_kept none old = old
or_kept (some v) old = some v

abbrev pub has_id : ℕ → SyncRun → Bool
has_id id r = r.id == id

unfoldable pub add_page : PageDelta → SyncRun → SyncRun
add_page d r = record r {
  pages_fetched = r.pages_fetched + 1;
  items_seen = r.items_seen + d.items_seen;
  items_new = r.items_new + d.items_new;
  items_updated = r.items_updated + d.items_updated;
  metrics_recorded = r.metrics_recorded + d.metrics_recorded;
  asset_jobs_enqueued = r.asset_jobs_enqueued + d.asset_jobs_enqueued;
  last_cursor = or_kept d.last_cursor r.last_cursor;
  rate_limit_snapshot = or_kept d.rate_limit r.rate_limit_snapshot;
}

unfoldable pub record_page_progress : ℕ → PageDelta → Database → Database
unfolding add_page
record_page_progress run_id d db = record db {
  sync_runs = update_where (has_id run_id) (add_page d) db.sync_runs;
}

abbrev pub sliced : Option String → Option String
sliced none = none
sliced (some e) = some (slice_from_start 4000 e)

unfoldable pub close_run : (now : ℕ) → RunStatus → Option String → Bool → SyncRun → SyncRun
close_run now status error hit_item_cap r = record r {
  status = status;
  finished_at = some now;
  duration_ms = some (now - r.started_at);
  error = sliced error;
  hit_item_cap = if hit_item_cap then 1 else 0;
}

unfoldable pub finish_run :
    (now run_id : ℕ) → RunStatus → Option String → Bool → Database → Database
unfolding close_run
finish_run now run_id status error hit_item_cap db = record db {
  sync_runs = update_where (has_id run_id) (close_run now status error hit_item_cap) db.sync_runs;
}

abbrev pub find_run : ℕ → Database → Option SyncRun
find_run id db = find (has_id id) db.sync_runs

-- `recordPage`: the rows of one page, from an index on; an empty page writes none.
unfoldable pub page_rows :
    (now run_id hashtag_id : ℕ)
    → SyncKind
    → (page_number offset drawn index : ℕ) → List MetaMedia
    → List DataPoint
page_rows now run_id hashtag_id source page_number offset drawn index [] = []
page_rows now run_id hashtag_id source page_number offset drawn index (item ∷ items) =
    record {
      id = drawn + index;
      sync_run_id = run_id;
      hashtag_id = hashtag_id;
      ig_media_id = item.id;
      source = source;
      page_number = page_number;
      position_in_page = index;
      position_overall = offset + index;
      payload = item;
      fetched_at = now;
    }
    ∷ page_rows now run_id hashtag_id source page_number offset drawn (index + 1) items

unfoldable pub record_page :
    (now run_id hashtag_id : ℕ)
    → SyncKind
    → (page_number offset : ℕ) → List MetaMedia
    → Database
    → Database
unfolding page_rows
record_page now run_id hashtag_id source page_number offset items db = record db {
  data_points =
      db.data_points ++ page_rows now run_id hashtag_id source page_number offset db.drawn 0 items;
  drawn = db.drawn + length items;
}
