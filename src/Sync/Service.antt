-- ===== src/Sync/Service.antt =====
-- HashtagSyncService.sync and runSync (src/api/services/HashtagSyncService.ts), and the advisory
-- lock that sync runs under (src/database/advisoryLock.ts).
use saral.Base.{
  ℕ, suc, ◌-◌, Bool, true, false, Option, none, some, List, [], ◌∷◌, String, ltb, ◌==◌,
  if◌then◌else◌,
}
use saral.Jobs.{SyncKind, top, recent}
use saral.Meta.Client.Net.{Edge, top_media, recent_media}
use saral.Meta.Client.Request.{returned, threw}
use saral.Meta.Client.Paginate.{PaginateOptions, truthy, or_default, start_walk, resolve_hashtag_id}
use saral.Store.Tables.{Hashtag, SyncRun, RunStatus, succeeded, partial, failed}
use saral.Store.Runs.{find_resumable_run, start_run, finish_run}
use saral.Store.Hashtags.{find_hashtag, set_ig_hashtag_id, mark_sync_succeeded, mark_sync_failed}
use saral.Sync.State.{
  World, SyncError, meta, hashtag_not_found, Runtime, SyncOptions, SyncOutcome, Result, ok, err,
}
use saral.Sync.Items.{RunContext}
use saral.Sync.Pages.{Progress, sync_pages}

abbrev pub edge_of : SyncKind → Edge
edge_of top = top_media
edge_of recent = recent_media

-- `lastCursor`, where it is not empty.
abbrev pub when_truthy : Option String → Option String
when_truthy s = if truthy s then s else none

abbrev pub holds : ℕ → List ℕ → Bool
holds k [] = false
holds k (l ∷ ls) = if k == l then true else holds k ls

-- `pg_advisory_unlock`: one level of the lock.
abbrev pub unlock : ℕ → List ℕ → List ℕ
unlock k [] = []
unlock k (l ∷ ls) = if k == l then ls else l ∷ unlock k ls

-- `Partial, not failed, when some pages landed.`
abbrev pub error_status : (before after : ℕ) → RunStatus
error_status before after = if ltb before after then partial else failed

abbrev pub outcome_of : ℕ → Progress → SyncOutcome
outcome_of run_id acc = record {
  skipped = false;
  sync_run_id = some run_id;
  items_seen = acc.items_seen;
  items_new = acc.items_new;
  asset_jobs_enqueued = acc.asset_jobs_enqueued;
}

module _ {W : Type 0} (rt : Runtime W) where
  abbrev pub now_in : World W → World W × ℕ
  now_in s = let (outside, now) = rt.clock s.outside in (record s { outside = outside }, now)

  -- The hashtag's id at Meta: cached, or resolved and written.
  unfoldable pub ensure_ig_id : Hashtag → World W → World W × Result String
  ensure_ig_id h s =
      let (outside, client, outcome) =
        resolve_hashtag_id rt.net rt.config rt.json_parse rt.is_url h.name s.outside s.client in
      let (s1, now) = now_in (record s { outside = outside; client = client }) in
      let resolved : World W × Result String = elim outcome [
        | threw e ↦ (record s { outside = outside; client = client }, err (meta e))
        | returned ig usage ↦ (record s1 { db = set_ig_hashtag_id now h.id ig s1.db }, ok ig)
      ] in
      elim h.ig_hashtag_id [
        | none ↦ resolved
        | some ig ↦ if truthy (some ig) then (s, ok ig) else resolved
      ]

  -- An interrupted run, or a new one.
  unfoldable pub claim_run : SyncOptions → World W → World W × SyncRun
  claim_run options s =
      let (s1, now) = now_in s in
      let (db, row) =
        start_run now options.kind options.hashtag_id options.message_id options.attempt s1.db in
      elim (find_resumable_run options.kind options.hashtag_id s.db) [
        | some run ↦ (s, run)
        | none ↦ (record s1 { db = db }, row)
      ]

  abbrev pub context_of : SyncOptions → SyncRun → RunContext
  context_of options run = record {
    run_id = run.id;
    hashtag_id = options.hashtag_id;
    kind = options.kind;
  }

  abbrev pub first_progress : SyncRun → Progress
  first_progress run = record {
    items_seen = run.items_seen;
    items_new = 0;
    asset_jobs_enqueued = 0;
    hit_item_cap = false;
  }

  abbrev pub paginate_options : SyncOptions → Hashtag → String → SyncRun → PaginateOptions
  paginate_options options h ig run = record {
    hashtag_id = ig;
    edge = edge_of options.kind;
    max_items = or_default h.max_media_per_sync rt.sync_max_media_per_run - run.items_seen;
    page_size = none;
    start_cursor = when_truthy run.last_cursor;
  }

  -- The loop over the pages. Each page but the last adds an item, so that two more turns than
  -- there are items left are enough.
  unfoldable pub walk_pages :
      SyncOptions → Hashtag → String → SyncRun → World W → World W × Progress × Option SyncError
  walk_pages options h ig run s =
      let opts = paginate_options options h ig run in
      sync_pages rt (context_of options run)
        (or_default h.max_media_per_sync rt.sync_max_media_per_run) (suc (suc opts.max_items)) opts
        (start_walk rt.config opts s.client) (first_progress run) s

  -- What the `try` ends with, and its `catch`.
  unfoldable pub close :
      SyncOptions → SyncRun → Progress → Option SyncError → World W → World W × Result SyncOutcome
  close options run acc none s =
      let (s1, now) = now_in s in
      let (s2, later) = now_in s1 in
      (
        record s2 {
          db =
              mark_sync_succeeded later options.hashtag_id options.kind
                (finish_run now run.id succeeded none acc.hit_item_cap s.db);
        },
        ok (outcome_of run.id acc),
      )
  close options run acc (some e) s =
      let (s1, now) = now_in s in
      let (s2, later) = now_in s1 in
      (
        record s2 {
          db = mark_sync_failed later options.hashtag_id (rt.message_of e) (
              finish_run now run.id (error_status run.items_seen acc.items_seen)
                (some (rt.message_of e)) acc.hit_item_cap s.db);
        },
        err e,
      )

  unfoldable pub run_claimed :
      SyncOptions → Hashtag → String → World W → World W × Result SyncOutcome
  run_claimed options h ig s =
      let (s1, run) = claim_run options s in
      let (s2, acc, stopped) = walk_pages options h ig run s1 in close options run acc stopped s2

  unfoldable pub run_sync : SyncOptions → World W → World W × Result SyncOutcome
  run_sync options s = elim (find_hashtag options.hashtag_id s.db) [
    | none ↦ (s, err hashtag_not_found)
    | some h ↦
        let (s1, r) = ensure_ig_id h s in
        elim r [ err e ↦ (s1, err e) | ok ig ↦ run_claimed options h ig s1 ]
  ]

  abbrev pub skipped_outcome : SyncOutcome
  skipped_outcome = record {
    skipped = true;
    sync_run_id = none;
    items_seen = 0;
    items_new = 0;
    asset_jobs_enqueued = 0;
  }

  -- `withAdvisoryLock` around `runSync`: the lock is released however that ends.
  unfoldable pub sync : SyncOptions → World W → World W × Result SyncOutcome
  sync options s =
      let key = rt.lock_key options.kind options.hashtag_id in
      let (s1, r) = run_sync options (record s { locks = key ∷ s.locks }) in
      if holds key s.locks
      then (s, ok skipped_outcome)
      else (record s1 { locks = unlock key s1.locks }, r)
