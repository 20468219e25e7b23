-- ===== src/Tests/Replays.antt =====
-- The replay of a run and the reports at concrete inputs (commands/replay.ts,
-- src/api/repositories/MediaAssetRepository.ts).
use saral.Base.{
  ℕ, ◌≤◌, ◌≡◌, refl, Bool, Option, false, true, none, some, [], ◌∷◌, String, arith, leb,
  if◌then◌else◌, length, keep, find, tally, map, All,
}
use saral.Jobs.{top}
use saral.Meta.Schema.{meta_media}
use saral.Meta.Payload.{media_json}
use saral.Meta.Timestamp.{parse_meta_timestamp}
use saral.Asset.Storage.{got}
use saral.Store.Tables.{Database, DataPoint, MediaPost, MediaAsset, stored}
use saral.Store.Reads.{is_group, find_by_run_id, find_repost_clusters, find_co_occurring_hashtags}
use saral.Store.Clusters.{has_hash, find_repost_clusters_exact}
use saral.Sync.State.{World}
use saral.Commands.Replay.{ReplayCount, replay_media, replay_payload, replay_payloads, replay}
use saral.Store.Media.{has_ig_id, upsert_media, upsert_post}
use saral.Commands.Rows.{Keeps, Appends}
use saral.Commands.Replayed.{is_accepted, is_refused, IsReadable, SameElse}
use saral.Commands.Replaying.{names, Rebuilt, replay_rebuilds}
use saral.Tests.Tables.{seen_once, stored_once, media, asset}
use saral.Tests.Syncing.{runtime, row, world}

abbrev payload : ℕ → String → (position : ℕ) → DataPoint
payload id ig position = record {
  id = id;
  sync_run_id = 9;
  hashtag_id = 5;
  ig_media_id = ig;
  source = top;
  page_number = 1;
  position_in_page = position;
  position_overall = position;
  payload = record (media "https://i/1") { id = ig };
  fetched_at = 30;
}

-- A payload that the schema refuses now.
abbrev refused : DataPoint
refused = record (payload 72 "" 2) { payload = record (media "https://i/1") { id = "" } }

-- Two payloads, the second of the response first, and a third; the first one's post is there.
abbrev recorded : World ℕ
recorded = record world {
  db = record seen_once {
    sync_runs = row ∷ [];
    data_points = payload 70 "1792" 1 ∷ payload 71 "1791" 0 ∷ refused ∷ [];
  };
}

in_order : find_by_run_id 9 recorded.db ≡ payload 71 "1791" 0 ∷ payload 70 "1792" 1 ∷ refused ∷ []
unfolding find_by_run_id
in_order = refl

all-IsReadable : All (IsReadable runtime) (find_by_run_id 9 recorded.db)
unfolding find_by_run_id parse_meta_timestamp
all-IsReadable = (λ media e. (100, refl), (λ media e. (100, refl), (λ media e. (100, refl), tt)))

not_empty : 1 ≤ length (find_by_run_id 9 recorded.db)
unfolding find_by_run_id
not_empty = omega arith

replay_rebuilds_example :
    let payloads = find_by_run_id 9 recorded.db in
    let (s1, r) = replay runtime 9 recorded in
    let (s2, r2) = replay runtime 9 s1 in
    ((n : ReplayCount) × (r ≡ got n)
      × (n.reprocessed ≡ length (keep (is_accepted runtime) payloads))
      × (n.invalid ≡ length (keep (is_refused runtime) payloads)))
    × Rebuilt runtime payloads s1.db.media_posts
    × ((ig : String)
        → names runtime ig payloads ≡ false
        → find (has_ig_id ig) s1.db.media_posts ≡ find (has_ig_id ig) recorded.db.media_posts)
    × Keeps recorded.db.media_posts s1.db.media_posts
    × Appends 9 recorded.db.media_post_history s1.db.media_post_history
    × SameElse runtime recorded s1
    × (length s2.db.media_posts ≡ length s1.db.media_posts)
replay_rebuilds_example =
    replay_rebuilds runtime 9 row recorded refl not_empty all-IsReadable stored_once

-- Two payloads are reprocessed, and one is invalid.
counted_apart :
    (n : ReplayCount) × ((replay runtime 9 recorded).1 ≡ got n)
    × (n.reprocessed ≡ 2)
    × (n.invalid ≡ 1)
unfolding replay find_by_run_id replay_payloads replay_payload meta_media media_json replay_media
    upsert_media parse_meta_timestamp upsert_post
counted_apart = (_, refl, refl, refl)

-- A replay writes what the run saw, over what later runs have seen since: the caption of the post
-- is that of the payload again, and its mark as stale is gone.
abbrev edited_since : World ℕ
edited_since = record recorded {
  db = record recorded.db {
    media_posts =
        map {B = MediaPost} (λ p. record p { caption = some "new"; is_stale = true })
          seen_once.media_posts;
  };
}

replay_takes_back :
    map {B = Option String × Bool}
      (λ p. (p.caption, p.is_stale))
      (replay runtime 9 edited_since).0.db.media_posts
    ≡ (some "#matcha", false) ∷ (some "#matcha", false) ∷ []
unfolding replay find_by_run_id replay_payloads replay_payload meta_media media_json replay_media
    upsert_media parse_meta_timestamp upsert_post
replay_takes_back = refl

-- Two posts with one file, and one with another.
abbrev file : ℕ → String → MediaAsset
file id hash = record asset { id = id; media_id = id; status = stored; sha256 = some hash }

abbrev reposted : Database
reposted = record seen_once { media_assets = file 1 "aa" ∷ file 2 "bb" ∷ file 3 "aa" ∷ asset ∷ [] }

find_repost_clusters_exact_example :
    let clusters = find_repost_clusters 2 reposted in
    let n = tally (has_hash "aa") reposted.media_assets in
    (tally (is_group "aa") clusters ≤ 1)
    × (find (is_group "aa") clusters
        ≡ (if leb 2 n then some (record { group_key = "aa"; group_count = n }) else none))
find_repost_clusters_exact_example = find_repost_clusters_exact 2 reposted "aa" (omega arith)

one_cluster : find_repost_clusters 2 reposted ≡ record { group_key = "aa"; group_count = 2 } ∷ []
unfolding find_repost_clusters
one_cluster = refl

co_occurring :
    find_co_occurring_hashtags 5 20 seen_once
    ≡ record { group_key = "matcha"; group_count = 1 } ∷ []
unfolding find_co_occurring_hashtags
co_occurring = refl
