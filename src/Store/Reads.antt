-- ===== src/Store/Reads.antt =====
-- The queries of src/api/repositories that only reports and the commands read: findByRunId and
-- countByRunId of DataPointRepository.ts, findRecent of SyncRunRepository.ts, findResolved of
-- HashtagRepository.ts, findCoOccurringHashtags of MediaRepository.ts and findRepostClusters of
-- MediaAssetRepository.ts. Of equal sort keys the earlier row comes first.
use saral.Base.{
  ℕ, ◌+◌, Bool, true, false, none, some, List, [], ◌∷◌, ◌++◌, String, leb, ltb, ◌==◌, if◌then◌else◌,
  keep, take, length,
}
use text.Mathlib.Text.{◌==◌ as str_eq}
use saral.Store.Tables.{Database, Hashtag, SyncRun, DataPoint, MediaPost, MediaAsset}

-- `x` before the first row that it has to precede.
abbrev pub insert_by {ℓ} : {A : Type ℓ} → (A → A → Bool) → A → List A → List A
insert_by before x [] = x ∷ []
insert_by before x (y ∷ ys) = if before y x then y ∷ insert_by before x ys else x ∷ y ∷ ys

-- ORDER BY.
abbrev pub order_by {ℓ} : {A : Type ℓ} → (A → A → Bool) → List A → List A
order_by before [] = []
order_by before (x ∷ xs) = insert_by before x (order_by before xs)

abbrev pub of_run : ℕ → DataPoint → Bool
of_run run_id p = p.sync_run_id == run_id

abbrev pub earlier_position : DataPoint → DataPoint → Bool
earlier_position p q = ltb p.position_overall q.position_overall

unfoldable pub find_by_run_id : ℕ → Database → List DataPoint
find_by_run_id run_id db = order_by earlier_position (keep (of_run run_id) db.data_points)

abbrev pub count_by_run_id : ℕ → Database → ℕ
count_by_run_id run_id db = length (keep (of_run run_id) db.data_points)

abbrev pub started_later : SyncRun → SyncRun → Bool
started_later r s = ltb s.started_at r.started_at

abbrev pub find_recent : (limit : ℕ) → Database → List SyncRun
find_recent limit db = take limit (order_by started_later db.sync_runs)

abbrev pub is_resolved : Hashtag → Bool
is_resolved h = elim h.ig_hashtag_id [ none ↦ false | some ig ↦ true ]

abbrev pub find_resolved : Database → List Hashtag
find_resolved db = keep is_resolved db.hashtags

-- A row of `SELECT k, count(*) … GROUP BY k`.
pub record Group : Type 0 where
  pub group_key : String
  pub group_count : ℕ

abbrev pub is_group : String → Group → Bool
is_group k g = str_eq g.group_key k

abbrev pub add_to_groups : String → List Group → List Group
add_to_groups k [] = record { group_key = k; group_count = 1 } ∷ []
add_to_groups k (g ∷ gs) =
    if is_group k g
    then record g { group_count = g.group_count + 1 } ∷ gs
    else g ∷ add_to_groups k gs

unfoldable pub group_counts : List String → List Group
group_counts [] = []
group_counts (k ∷ ks) = add_to_groups k (group_counts ks)

-- `unnest` of the tags of the posts of a hashtag.
abbrev pub tags_of : ℕ → List MediaPost → List String
tags_of hashtag_id [] = []
tags_of hashtag_id (p ∷ ps) =
    if p.hashtag_id == hashtag_id
    then p.caption_hashtags ++ tags_of hashtag_id ps
    else tags_of hashtag_id ps

abbrev pub counted_more : Group → Group → Bool
counted_more g h = ltb h.group_count g.group_count

unfoldable pub find_co_occurring_hashtags : (hashtag_id limit : ℕ) → Database → List Group
unfolding group_counts
find_co_occurring_hashtags hashtag_id limit db =
    take limit (order_by counted_more (group_counts (tags_of hashtag_id db.media_posts)))

-- `sha256 IS NOT NULL`.
abbrev pub hashes_of : List MediaAsset → List String
hashes_of [] = []
hashes_of (a ∷ rows) = elim a.sha256 [ none ↦ hashes_of rows | some h ↦ h ∷ hashes_of rows ]

abbrev pub counts_enough : ℕ → Group → Bool
counts_enough min_count g = leb min_count g.group_count

unfoldable pub find_repost_clusters : (min_count : ℕ) → Database → List Group
unfolding group_counts
find_repost_clusters min_count db =
    keep (counts_enough min_count) (group_counts (hashes_of db.media_assets))
