-- ===== src/Tests/Reading.antt =====
-- The read API at concrete inputs (src/api/repositories/HashtagMediaQueryRepository.ts).
use saral.Base.{ℕ, suc, ◌≤◌, ◌≡◌, refl, true, false, none, some, [], ◌∷◌, String, arith, length}
use saral.Jobs.{recent}
use saral.Meta.Schema.{image}
use saral.Store.Tables.{Database, Hashtag, MediaPost, empty_database}
use saral.Query.Listing.{ListMediaFilters, join_rows, count_media, read_pages}
use saral.Query.Order.{IsDescending, IsDistinct}
use saral.Query.Paging.{full_listing, read_pages_complete, count_media-listing}

abbrev post_at : ℕ → ℕ → String → MediaPost
post_at id taken_at ig = record {
  id = id;
  ig_media_id = ig;
  hashtag_id = 5;
  media_type = image;
  caption = none;
  permalink = "https://i/1";
  source_media_url = none;
  caption_hashtags = [];
  caption_mentions = [];
  taken_at = taken_at;
  first_seen_at = 200;
  last_seen_at = 200;
  content_updated_at = none;
  like_count = none;
  comments_count = none;
  metrics_updated_at = none;
  first_seen_via = recent;
  seen_in_top = false;
  seen_in_recent = true;
  best_top_rank = none;
  is_stale = false;
  created_at = 200;
  updated_at = 200;
}

abbrev matcha : Hashtag
matcha = record {
  id = 5;
  name = "matcha";
  ig_hashtag_id = none;
  ig_hashtag_id_resolved_at = none;
  is_active = true;
  track_from = none;
  track_until = none;
  top_sync_enabled = true;
  recent_sync_enabled = true;
  max_media_per_sync = none;
  last_top_synced_at = none;
  last_recent_synced_at = none;
  last_sync_error = none;
  consecutive_failures = 0;
  notes = none;
  created_at = 1;
  updated_at = 1;
}

-- Two of the three posts share their time.
abbrev pub three : Database
three = record empty_database {
  hashtags = matcha ∷ [];
  media_posts = post_at 1 100 "a" ∷ post_at 2 300 "b" ∷ post_at 3 100 "c" ∷ [];
}

abbrev by_two : ListMediaFilters
by_two = record {
  hashtag = some "matcha";
  media_type = none;
  taken_after = none;
  taken_before = none;
  include_stale = true;
  limit = 2;
  cursor = none;
}

abbrev as_is : String → String
as_is s = s

pub distinct : IsDistinct (join_rows three three.media_posts)
unfolding join_rows
distinct = ground arith

read_pages_complete_example :
    (read_pages (suc (length (full_listing as_is three by_two))) as_is by_two three
      ≡ full_listing as_is three by_two)
    × IsDescending (full_listing as_is three by_two)
read_pages_complete_example = read_pages_complete as_is three by_two distinct (omega arith) refl

count_media-listing_example :
    (length (full_listing as_is three by_two) ≤ count_media as_is by_two three)
    × (by_two.taken_after ≡ none
        → by_two.taken_before ≡ none
        → length (full_listing as_is three by_two) ≡ count_media as_is by_two three)
count_media-listing_example = count_media-listing as_is three by_two
