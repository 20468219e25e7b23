-- ===== src/Tests/Syncing.antt =====
-- The ingestion of a hashtag at concrete inputs (src/api/services/HashtagSyncService.ts).
use saral.Base.{◌↔◌, ℕ, ◌+◌, ◌≡◌, refl, ◌≢◌, ◌⊎◌, true, false, none, some, [], ◌∷◌}
use saral.Jobs.{SyncKind, top}
use saral.Json.{Json, str, arr, obj, nil, cons, end, field}
use saral.Meta.Client.Paginate.{Walk, start_walk}
use saral.Store.Tables.{SyncRun, succeeded, running}
use saral.Store.Posts.{IsUnique}
use saral.Store.History.{IsOnce}
use saral.Store.Runs.{find_run, find_resumable_run}
use saral.Sync.State.{World, SyncError, out_of_fuel, Runtime, SyncOptions, ok, err}
use saral.Sync.Items.{no_tally, RunContext, ensure_download}
use saral.Sync.Downloads.{
  wants_download, KeepsAsset, QueuesDownload, ensure_download-QueuesDownload,
}
use saral.Store.Assets.{find_by_media_id}
use saral.Store.Tables.{MediaAsset}
use saral.Sync.Pages.{Progress, sync_pages}
use saral.Sync.Service.{
  holds, claim_run, walk_pages, outcome_of, error_status, run_claimed, run_sync, skipped_outcome,
  sync,
}
use saral.Sync.Accounting.{Accounts, RowSays, sync_pages-Accounts}
use saral.Sync.Ending.{run_claimed-ends}
use saral.Sync.Fuel.{walk_pages-fueled}
use saral.Sync.Keys.{sync_pages-keys}
use saral.Sync.Locks.{sync-locks}
use saral.Tests.Requests.{config, fresh, answer, always, reads_as, any_url, options}
use saral.Tests.Tables.{matcha, tracked, empty_queue, none_twice, stored_once, machine, disk}
use saral.Jobs.{Job}
use saral.Queue.Port.{QueueMessage}
use saral.Worker.Process.{Verdict, unprocessable_job_error, succeeded, failed, run_handler}
use saral.Consumers.Handlers.{build_handlers}
use saral.Consumers.Verdicts.{NamesNothing, build_handlers-gives_up_iff}

-- Every page has one post.
abbrev one_post : Json
one_post = obj (
    field "data"
      (arr (
        cons
          (obj (
            field "id" (str "1791") (
              field "media_type" (str "IMAGE") (
                field "timestamp" (str "2026") (
                  field "permalink" (str "https://i/1")
                    (field "media_url" (str "https://cdn/1") end))))))
          nil))
      end)

abbrev pub runtime : Runtime ℕ
runtime = record {
  net = always (some (answer 200 "{}"));
  config = config;
  json_parse = reads_as one_post;
  is_url = any_url;
  clock = λ w. (w + 1, w);
  parse_date = λ s. some 100;
  in_word = λ c. true;
  to_lower_case = λ s. s;
  message_of = λ e. "failed";
  lock_key = λ kind id. id;
  sync_max_media_per_run = 500;
}

abbrev pub row : SyncRun
row = record {
  id = 9;
  type = top;
  status = running;
  hashtag_id = 5;
  triggered_by_message_id = none;
  started_at = 20;
  finished_at = none;
  duration_ms = none;
  pages_fetched = 0;
  items_seen = 0;
  items_new = 0;
  items_updated = 0;
  metrics_recorded = 0;
  asset_jobs_enqueued = 0;
  hit_item_cap = 0;
  rate_limit_snapshot = none;
  last_cursor = none;
  attempts = 1;
  error = none;
  created_at = 20;
}

abbrev pub world : World ℕ
world = record {
  outside = 1000;
  client = fresh;
  db = record tracked { sync_runs = row ∷ [] };
  queue = empty_queue;
  locks = 8 ∷ [];
}

abbrev context : RunContext
context = record { run_id = 9; hashtag_id = 5; kind = top }

abbrev nothing_yet : Progress
nothing_yet = record {
  items_seen = 0;
  items_new = 0;
  asset_jobs_enqueued = 0;
  hit_item_cap = false;
}

abbrev begun : Walk
begun = start_walk config options fresh

sync_pages-Accounts_example :
    let end = sync_pages runtime context 100 102 options begun nothing_yet world in
    Accounts world nothing_yet end × RowSays 9 0 0 end.1 end.0.db
sync_pages-Accounts_example =
    sync_pages-Accounts runtime context 100 0 0 102 options begun nothing_yet world
      (row, refl, refl, refl, refl)

sync_pages-keys_example :
    let db' = (sync_pages runtime context 100 102 options begun nothing_yet world).0.db in
    IsUnique db'.media_posts × IsOnce db'.media_post_history
sync_pages-keys_example =
    sync_pages-keys runtime context 100 102 options begun nothing_yet world stored_once none_twice

abbrev sync_options : SyncOptions
sync_options = record { hashtag_id = 5; kind = top; message_id = none; attempt = some 1 }

walk_pages-fueled_example :
    (walk_pages runtime sync_options matcha "178" row world).2 ≢ some out_of_fuel
walk_pages-fueled_example = walk_pages-fueled runtime sync_options matcha "178" row world

run_claimed-ends_example :
    let (s1, run) = claim_run runtime sync_options world in
    let (s2, acc, stop) = walk_pages runtime sync_options matcha "178" run s1 in
    let (s', r) = run_claimed runtime sync_options matcha "178" world in
    ((row : SyncRun)
      → find_run run.id s'.db ≡ some row
      → ((row.status ≡ succeeded) × (r ≡ ok (outcome_of run.id acc)))
        ⊎ ((e : SyncError) × (r ≡ err e)
            × (row.status ≡ error_status run.items_seen acc.items_seen)))
    × ((kind : SyncKind) (tag : ℕ) (found : SyncRun)
        → find_resumable_run kind tag s'.db ≡ some found
        → found.id ≢ run.id)
run_claimed-ends_example = run_claimed-ends runtime sync_options matcha "178" world

sync-locks_example :
    ((sync runtime sync_options world).0.locks ≡ world.locks)
    × (((holds 5 world.locks ≡ true)
          × (sync runtime sync_options world ≡ (world, ok (skipped_outcome runtime))))
        ⊎ ((holds 5 world.locks ≡ false)
            × ((sync runtime sync_options world).1
                ≡ (run_sync runtime sync_options (record world { locks = 5 ∷ world.locks })).1)))
sync-locks_example = sync-locks runtime sync_options world

abbrev message : QueueMessage
message = record {
  id = 30;
  job = Job.sync_top_hashtag_media 5;
  receipt_handle = 31;
  received_count = 1;
}

build_handlers-gives_up_iff_example :
    (s' : World ℕ) × (v : Verdict) × (run_handler message
        (build_handlers runtime machine disk)
        false
        world
      ≡ some (s', v))
    × ((v ≡ unprocessable_job_error) ↔ NamesNothing message.job world.db)
    × ((v ≡ unprocessable_job_error) ⊎ (v ≡ succeeded) ⊎ (v ≡ failed))
build_handlers-gives_up_iff_example =
    build_handlers-gives_up_iff runtime machine disk message false world

ensure_download-QueuesDownload_example :
    let (s', r) = ensure_download runtime context (some "https://cdn/1") 0 no_tally world in
    let before = find_by_media_id 0 world.db in
    (((wants_download before (some "https://cdn/1") ≡ true)
        × QueuesDownload runtime context 0 world.queue s'.queue
        × (r ≡ ok (record no_tally { page_asset_jobs = 1 })))
      ⊎ ((wants_download before (some "https://cdn/1") ≡ false)
          × (s'.queue ≡ world.queue)
          × (r ≡ ok no_tally)))
    × ((b : MediaAsset) × (find_by_media_id 0 s'.db ≡ some b)
        × (b.fetched_from_url ≡ some "https://cdn/1")
        × KeepsAsset before b)
ensure_download-QueuesDownload_example =
    ensure_download-QueuesDownload runtime context (some "https://cdn/1") 0 no_tally world refl
