-- ===== src/Store/Tables.antt =====
-- The tables of src/api/models as records, each with the columns of its file in their order, and the
-- enums of src/api/models/enums.ts. A uuid is a number, a timestamp its milliseconds, and NULL is
-- `none`. `gen_random_uuid()` draws 0, 1, 2, … so that no two rows share an id.
use saral.Base.{ℕ, Bool, Option, List, [], ◌∷◌, String, if◌then◌else◌}
use saral.Jobs.{SyncKind}
use saral.Meta.Schema.{MetaMedia, MediaType}
use saral.Meta.RateLimit.Usage.{RateLimitUsage}

pub data RunStatus : Type 0 where
  running succeeded partial failed : RunStatus

pub data AssetStatus : Type 0 where
  pending downloading stored failed skipped : AssetStatus

pub record Hashtag : Type 0 where
  pub id : ℕ
  pub name : String
  pub ig_hashtag_id : Option String
  pub ig_hashtag_id_resolved_at : Option ℕ
  pub is_active : Bool
  pub track_from : Option ℕ
  pub track_until : Option ℕ
  pub top_sync_enabled : Bool
  pub recent_sync_enabled : Bool
  pub max_media_per_sync : Option ℕ
  pub last_top_synced_at : Option ℕ
  pub last_recent_synced_at : Option ℕ
  pub last_sync_error : Option String
  pub consecutive_failures : ℕ
  pub notes : Option String
  pub created_at : ℕ
  pub updated_at : ℕ

-- `sync_run_type` has one value for each kind.
pub record SyncRun : Type 0 where
  pub id : ℕ
  pub type : SyncKind
  pub status : RunStatus
  pub hashtag_id : ℕ
  pub triggered_by_message_id : Option ℕ
  pub started_at : ℕ
  pub finished_at : Option ℕ
  pub duration_ms : Option ℕ
  pub pages_fetched : ℕ
  pub items_seen : ℕ
  pub items_new : ℕ
  pub items_updated : ℕ
  pub metrics_recorded : ℕ
  pub asset_jobs_enqueued : ℕ
  pub hit_item_cap : ℕ
  pub rate_limit_snapshot : Option RateLimitUsage
  pub last_cursor : Option String
  pub attempts : ℕ
  pub error : Option String
  pub created_at : ℕ

pub record DataPoint : Type 0 where
  pub id : ℕ
  pub sync_run_id : ℕ
  pub hashtag_id : ℕ
  pub ig_media_id : String
  pub source : SyncKind
  pub page_number : ℕ
  pub position_in_page : ℕ
  pub position_overall : ℕ
  pub payload : MetaMedia
  pub fetched_at : ℕ

pub record MediaPost : Type 0 where
  pub id : ℕ
  pub ig_media_id : String
  pub hashtag_id : ℕ
  pub media_type : MediaType
  pub caption : Option String
  pub permalink : String
  pub source_media_url : Option String
  pub caption_hashtags : List String
  pub caption_mentions : List String
  pub taken_at : ℕ
  pub first_seen_at : ℕ
  pub last_seen_at : ℕ
  pub content_updated_at : Option ℕ
  pub like_count : Option ℕ
  pub comments_count : Option ℕ
  pub metrics_updated_at : Option ℕ
  pub first_seen_via : SyncKind
  pub seen_in_top : Bool
  pub seen_in_recent : Bool
  pub best_top_rank : Option ℕ
  pub is_stale : Bool
  pub created_at : ℕ
  pub updated_at : ℕ

pub data TrackedField : Type 0 where
  like_count comments_count rank caption permalink media_type : TrackedField

pub record MediaPostHistory : Type 0 where
  pub id : ℕ
  pub media_id : ℕ
  pub hashtag_id : ℕ
  pub sync_run_id : ℕ
  pub ig_media_id : String
  pub media_type : MediaType
  pub caption : Option String
  pub permalink : String
  pub caption_hashtags : List String
  pub caption_mentions : List String
  pub like_count : Option ℕ
  pub comments_count : Option ℕ
  pub rank : Option ℕ
  pub source : SyncKind
  pub changed_fields : List TrackedField
  pub captured_at : ℕ

pub record MediaAsset : Type 0 where
  pub id : ℕ
  pub media_id : ℕ
  pub status : AssetStatus
  pub sha256 : Option String
  pub storage_key : Option String
  pub storage_provider : Option String
  pub content_type : Option String
  pub size_bytes : Option ℕ
  pub fetched_from_url : Option String
  pub attempts : ℕ
  pub last_error : Option String
  pub download_started_at : Option ℕ
  pub stored_at : Option ℕ
  pub created_at : ℕ
  pub updated_at : ℕ

pub record Database : Type 0 where
  pub hashtags : List Hashtag
  pub sync_runs : List SyncRun
  pub data_points : List DataPoint
  pub media_posts : List MediaPost
  pub media_post_history : List MediaPostHistory
  pub media_assets : List MediaAsset
  pub drawn : ℕ

abbrev pub empty_database : Database
empty_database = record {
  hashtags = [];
  sync_runs = [];
  data_points = [];
  media_posts = [];
  media_post_history = [];
  media_assets = [];
  drawn = 0;
}

-- Every row that passes a test is replaced, as by `UPDATE … SET … WHERE`.
abbrev pub update_where {ℓ} : {A : Type ℓ} → (A → Bool) → (A → A) → List A → List A
update_where p f [] = []
update_where p f (x ∷ xs) = (if p x then f x else x) ∷ update_where p f xs
