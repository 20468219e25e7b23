-- ===== src/Tests/Tables.antt =====
-- The repositories, the schedule and the downloads at concrete inputs
-- (src/api/repositories/MediaRepository.ts, src/adapters/index.ts, src/api/consumers/index.ts,
-- src/api/services/MediaAssetService.ts).
use saral.Base.{
  ℕ, ◌+◌, ◌≡◌, refl, ◌≢◌, ◌↔◌, ◌⊎◌, true, false, none, some, List, [], ◌∷◌, ◌++◌, String, arith,
  All, length, find, map, eq_iff,
}
use saral.Jobs.{top, recent, Job}
use saral.Queue.Memory.{Envelope, MemoryQueue}
use saral.Meta.Schema.{MetaMedia, image}
use saral.Store.Tables.{Database, Hashtag, MediaPost, MediaAsset, pending, empty_database}
use saral.Store.Media.{Observation, has_ig_id, new_post, upsert_observation}
use saral.Store.Posts.{
  IsUnique, Extends, upsert_observation-IsUnique, upsert_observation-Extends,
  permalink_never_settles,
}
use saral.Store.History.{IsOnce, later, upsert_observation_again}
use saral.Store.Assets.{find_by_media_id}
use saral.Schedule.Cron.{
  to_event_bridge_expression, Written, OneMark, to_event_bridge_expression-marks,
}
use saral.Schedule.Dispatch.{Waits, dispatch_due_syncs}
use saral.Schedule.Due.{DueJobs, dispatch_due_syncs-DueJobs}
use saral.Asset.Storage.{got, Storage}
use saral.Asset.Download.{Machine, Shelf, download}
use saral.Asset.Settled.{Settles, download-Settles}

abbrev pub media : String → MetaMedia
media permalink = record {
  id = "1791";
  media_type = image;
  timestamp = "2026-01-02T03:04:05+0000";
  permalink = permalink;
  media_url = some "https://cdn/1";
  caption = some "#matcha";
  like_count = some 3;
  comments_count = none;
}

abbrev seen_at : ℕ → String → Observation
seen_at now permalink = record {
  input = record {
    media = media permalink;
    hashtag_id = 5;
    sync_run_id = 6;
    source = top;
    rank = 2;
  };
  taken_at = 100;
  now = now;
  caption_hashtags = "matcha" ∷ [];
  caption_mentions = [];
}

abbrev first_row : MediaPost
first_row = record {
  id = 0;
  ig_media_id = "1791";
  hashtag_id = 5;
  media_type = image;
  caption = some "#matcha";
  permalink = "https://i/1";
  source_media_url = some "https://cdn/1";
  caption_hashtags = "matcha" ∷ [];
  caption_mentions = [];
  taken_at = 100;
  first_seen_at = 200;
  last_seen_at = 200;
  content_updated_at = none;
  like_count = some 3;
  comments_count = none;
  metrics_updated_at = some 200;
  first_seen_via = top;
  seen_in_top = true;
  seen_in_recent = false;
  best_top_rank = some 2;
  is_stale = false;
  created_at = 200;
  updated_at = 200;
}

-- It is the row that the first sighting writes.
first_row_written : new_post 0 (seen_at 200 "https://i/1") ≡ first_row
unfolding new_post
first_row_written = refl

abbrev pub seen_once : Database
seen_once = record empty_database { media_posts = first_row ∷ []; drawn = 1 }

pub stored_once : IsUnique seen_once.media_posts
stored_once ig = ground arith

is_found : find (has_ig_id "1791") seen_once.media_posts ≡ some first_row
is_found = refl

upsert_observation-IsUnique_example :
    let (db', r) = upsert_observation (seen_at 300 "https://i/1") seen_once in
    IsUnique db'.media_posts
    × ((post : MediaPost) × (find (has_ig_id "1791") db'.media_posts ≡ some post)
        × (post.id ≡ r.id))
    × ((◌≡◌ {A = String} "1791" "42")
        ⊎ (find (has_ig_id "42") db'.media_posts ≡ find (has_ig_id "42") seen_once.media_posts))
upsert_observation-IsUnique_example =
    upsert_observation-IsUnique (seen_at 300 "https://i/1") seen_once "42" stored_once

upsert_observation-Extends_example :
    let db' = (upsert_observation (seen_at 300 "https://i/1") seen_once).0 in
    (length db'.media_posts ≡ length seen_once.media_posts)
    × ((after : MediaPost) × (find (has_ig_id "1791") db'.media_posts ≡ some after)
        × Extends first_row after)
upsert_observation-Extends_example =
    upsert_observation-Extends (seen_at 300 "https://i/1") seen_once first_row is_found

moved : ◌≢◌ {A = String} "https://i/1" "https://i/2"
moved = λ e. let differ : false ≡ true = (eq_iff "https://i/1" "https://i/2").1 e in cc

permalink_never_settles_example :
    let (db', r) = upsert_observation (seen_at 300 "https://i/2") seen_once in
    (r.content_changed ≡ true)
    × (r.is_new ≡ false)
    × ((after : MediaPost) × (find (has_ig_id "1791") db'.media_posts ≡ some after)
        × (after.permalink ≢ "https://i/2")
        × (after.first_seen_at ≡ 200))
permalink_never_settles_example =
    permalink_never_settles (seen_at 300 "https://i/2") seen_once first_row is_found moved
      (omega arith)

pub none_twice : IsOnce seen_once.media_post_history
none_twice m r = omega arith

upsert_observation_again_example :
    let (db1, r1) = upsert_observation (seen_at 300 "https://i/1") seen_once in
    let (db2, r2) = upsert_observation (later (seen_at 300 "https://i/1") 400) db1 in
    (r2.id ≡ r1.id)
    × (r2.history_recorded ≡ false)
    × (db2.media_post_history ≡ db1.media_post_history)
    × (length db2.media_posts ≡ length db1.media_posts)
    × (db2.drawn ≡ db1.drawn)
upsert_observation_again_example =
    upsert_observation_again (seen_at 300 "https://i/1") 400 seen_once

not_star : ◌≢◌ {A = String} "*" "?"
not_star = λ e. let differ : false ≡ true = (eq_iff "*" "?").1 e in cc

not_day : ◌≢◌ {A = String} "MON" "?"
not_day = λ e. let differ : false ≡ true = (eq_iff "MON" "?").1 e in cc

to_event_bridge_expression-marks_example :
    (dom' : String) × (dow' : String) × (to_event_bridge_expression
        ("0" ∷ "9" ∷ "*" ∷ "*" ∷ "MON" ∷ [])
      ≡ some ("0" ∷ "9" ∷ dom' ∷ "*" ∷ dow' ∷ "*" ∷ []))
    × Written "*" dom'
    × Written "MON" dow'
    × (OneMark dom' dow' ↔ ((◌≡◌ {A = String} "*" "*") ⊎ (◌≡◌ {A = String} "MON" "*")))
to_event_bridge_expression-marks_example =
    to_event_bridge_expression-marks "0" "9" "*" "*" "MON" not_star not_day

abbrev pub matcha : Hashtag
matcha = record {
  id = 5;
  name = "matcha";
  ig_hashtag_id = some "178";
  ig_hashtag_id_resolved_at = some 10;
  is_active = true;
  track_from = none;
  track_until = none;
  top_sync_enabled = true;
  recent_sync_enabled = true;
  max_media_per_sync = some 100;
  last_top_synced_at = none;
  last_recent_synced_at = none;
  last_sync_error = none;
  consecutive_failures = 0;
  notes = none;
  created_at = 1;
  updated_at = 1;
}

abbrev pub tracked : Database
tracked = record seen_once { hashtags = matcha ∷ [] }

abbrev pub empty_queue : MemoryQueue
empty_queue = record {
  messages = [];
  in_flight = [];
  dead_letters = [];
  closed = false;
  visibility_timeout_ms = 1000;
  max_receive_count = 3;
  drawn = 0;
}

dispatch_due_syncs-DueJobs_example :
    let (q', threw) = dispatch_due_syncs 50 (Job.dispatch_due_syncs recent) tracked empty_queue in
    ((false ≡ false)
      × (threw ≡ false)
      × ((added : List Envelope) × (q'.messages ≡ [] ++ added)
          × DueJobs recent 50 (matcha ∷ []) (map (λ e. e.job) added)
          × All (Waits 50) added))
    ⊎ ((false ≡ true)
        × (q' ≡ empty_queue)
        × ((DueJobs recent 50 (matcha ∷ []) [] × (threw ≡ false))
            ⊎ ((¬ DueJobs recent 50 (matcha ∷ []) []) × (threw ≡ true))))
dispatch_due_syncs-DueJobs_example = dispatch_due_syncs-DueJobs 50 recent tracked empty_queue

abbrev pub asset : MediaAsset
asset = record {
  id = 1;
  media_id = 0;
  status = pending;
  sha256 = none;
  storage_key = none;
  storage_provider = none;
  content_type = none;
  size_bytes = none;
  fetched_from_url = some "https://cdn/1";
  attempts = 0;
  last_error = none;
  download_started_at = none;
  stored_at = none;
  created_at = 200;
  updated_at = 200;
}

-- A machine whose CDN answers with two bytes, and a storage that has nothing yet.
abbrev pub machine : Machine ℕ
machine = record {
  clock = λ w. (w + 1, w);
  make_work_dir = λ w. (w, none);
  fetch = λ url w. (
    w,
    got (record {
      ok = true;
      status = 200;
      content_type = some "image/jpeg";
      body = some (1 ∷ 2 ∷ []);
    }),
  );
  stage = λ bytes w. (w, got 2);
  sha256 = λ bytes. "abcdef";
  normalize = λ s. s;
  message_of = λ e. "failed";
}

abbrev pub disk : Storage ℕ
disk = record {
  provider = "local";
  exists = λ key w. (w, got false);
  put_stream = λ key bytes o w. (
    w,
    got (record { key = key; provider = "local"; size_bytes = 2; content_type = o.content_type }),
  );
}

abbrev shelf : Shelf ℕ
shelf = record { outside = 1000; db = record seen_once { media_assets = asset ∷ [] } }

asset_there : find_by_media_id 0 shelf.db ≡ some asset
asset_there = refl

download-Settles_example : Settles machine disk 0 shelf asset (download machine disk 0 shelf)
download-Settles_example = download-Settles machine disk 0 shelf asset asset_there

abbrev as_is : String → String
as_is s = s
