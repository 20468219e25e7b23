-- ===== src/Http/Listing.antt =====
-- GET /hashtags, the route of src/api/controllers/HashtagController.ts, over the database as it is
-- when its queries run. The storage's `getLocator`, which may throw, is an argument.
use saral.Base.{ℕ, Bool, Option, none, some, List, [], ◌∷◌, String, if◌then◌else◌, length}
use Prim.Native.String
use saral.Json.{Fields}
use saral.Meta.Schema.{MediaType}
use saral.Meta.Client.Paginate.{truthy}
use saral.Store.Tables.{Database, MediaAsset, AssetStatus, pending}
use saral.Store.Hashtags.{find_by_name}
use saral.Query.Listing.{
  ListMediaFilters, ListMediaRow, MediaListing, list_media, count_media, next_cursor, or_empty,
}
use saral.Asset.Storage.{Attempt, got, threw}
use saral.Http.Errors.{HttpError, zod_error, other, bad_request, not_found}
use saral.Http.Cursor.{CursorText, Decoded, cursor, bad, encode_cursor, decode_cursor}
use saral.Http.Request.{ListQuery, Coercions, list_query}

-- `asset` of an item: the stored object, or a status alone.
pub data AssetView : Type 0 where
  stored_object :
      (status : AssetStatus) (storage_key locator : String) (sha256 : Option String)
      (size_bytes : Option ℕ) (content_type : Option String)
      → AssetView
  status_only : AssetStatus → AssetView

-- An item of `data`; dates are in ISO form.
pub record Item : Type 0 where
  pub id : ℕ
  pub ig_media_id : String
  pub hashtag : String
  pub media_type : MediaType
  pub caption : Option String
  pub permalink : String
  pub caption_hashtags : List String
  pub caption_mentions : List String
  pub taken_at : String
  pub like_count : Option ℕ
  pub comments_count : Option ℕ
  pub best_top_rank : Option ℕ
  pub seen_in_top : Bool
  pub seen_in_recent : Bool
  pub first_seen_at : String
  pub last_seen_at : String
  pub content_updated_at : Option String
  pub is_stale : Bool
  pub asset : Option AssetView

pub record Page : Type 0 where
  pub data_items : List Item
  pub limit : ℕ
  pub count : ℕ
  pub total : ℕ
  pub has_more : Bool
  pub next_cursor : Option String

-- `res.json(…)`, or `next(error)`.
pub data Answer : Type 0 where
  json : Page → Answer
  error : HttpError → Answer

-- What the controller uses of the runtime and of the storage driver.
pub record Api : Type 0 where
  pub text : CursorText
  pub coercions : Coercions
  pub trim : String → String
  pub to_lower_case : String → String
  pub get_locator : String → Attempt String String

abbrev pub filters_of : ListQuery → Option (ℕ × ℕ) → ListMediaFilters
filters_of q c = record {
  hashtag = q.hashtag;
  media_type = q.media_type;
  taken_after = q.taken_after;
  taken_before = q.taken_before;
  include_stale = q.include_stale;
  limit = q.limit;
  cursor = c;
}

abbrev pub iso_of : (ℕ → String) → Option ℕ → Option String
iso_of to_iso none = none
iso_of to_iso (some t) = some (to_iso t)

-- The key of the stored object; without one, or with an empty one, there is none.
abbrev pub asset_key : Option MediaAsset → Option String
asset_key none = none
asset_key (some a) = if truthy a.storage_key then a.storage_key else none

abbrev pub status_of : Option MediaAsset → AssetStatus
status_of none = pending
status_of (some a) = a.status

abbrev pub of_asset {ℓ} : {A : Type ℓ} → (MediaAsset → Option A) → Option MediaAsset → Option A
of_asset f none = none
of_asset f (some a) = f a

module _ (api : Api) where
  abbrev pub with_locator :
      Option MediaAsset → String → Attempt String String → Attempt AssetView String
  with_locator a key (threw e) = threw e
  with_locator a key (got locator) = got (
      stored_object (status_of a) key locator (of_asset (λ r. r.sha256) a)
        (of_asset (λ r. r.size_bytes) a) (of_asset (λ r. r.content_type) a))

  abbrev pub view_key : Option MediaAsset → Option String → Attempt AssetView String
  view_key a none = got (status_only (status_of a))
  view_key a (some key) = with_locator a key (api.get_locator key)

  -- `...(query.includeAsset ? { asset } : {})`.
  unfoldable pub asset_field : Bool → Option MediaAsset → Attempt (Option AssetView) String
  asset_field include_asset a =
      if include_asset
      then elim (view_key a (asset_key a)) [ threw e ↦ threw e | got v ↦ got (some v) ]
      else got none

  unfoldable pub item_of : ListMediaRow → Option AssetView → Item
  item_of row asset = record {
    id = row.post.id;
    ig_media_id = row.post.ig_media_id;
    hashtag = row.tag.name;
    media_type = row.post.media_type;
    caption = row.post.caption;
    permalink = row.post.permalink;
    caption_hashtags = row.post.caption_hashtags;
    caption_mentions = row.post.caption_mentions;
    taken_at = api.text.to_iso row.post.taken_at;
    like_count = row.post.like_count;
    comments_count = row.post.comments_count;
    best_top_rank = row.post.best_top_rank;
    seen_in_top = row.post.seen_in_top;
    seen_in_recent = row.post.seen_in_recent;
    first_seen_at = api.text.to_iso row.post.first_seen_at;
    last_seen_at = api.text.to_iso row.post.last_seen_at;
    content_updated_at = iso_of api.text.to_iso row.post.content_updated_at;
    is_stale = row.post.is_stale;
    asset = asset;
  }

  abbrev pub cons_item :
      ListMediaRow
      → Attempt (Option AssetView) String
      → Attempt (List Item) String
      → Attempt (List Item) String
  cons_item row (threw e) rest = threw e
  cons_item row (got a) (threw e) = threw e
  cons_item row (got a) (got items) = got (item_of row a ∷ items)

  -- `rows.map(…)`; a locator that throws ends it.
  unfoldable pub items_of : Bool → List ListMediaRow → Attempt (List Item) String
  unfolding asset_field
  items_of include_asset [] = got []
  items_of include_asset (row ∷ rows) =
      cons_item row (asset_field include_asset row.asset) (items_of include_asset rows)

  -- `hasMore && last ? encodeCursor(last.takenAt, last.id) : null`.
  abbrev pub encoded : Option (ℕ × ℕ) → Option String
  encoded none = none
  encoded (some key) = some (encode_cursor api.text key)

  abbrev pub page_answer :
      ListQuery → MediaListing → (total : ℕ) → Attempt (List Item) String → Answer
  page_answer q listing total (threw e) = error (other e)
  page_answer q listing total (got items) = json (record {
    data_items = items;
    limit = q.limit;
    count = length listing.rows;
    total = total;
    has_more = listing.has_more;
    next_cursor = encoded (next_cursor listing);
  })

  -- From the two queries on.
  unfoldable pub answer_page : ListQuery → Option (ℕ × ℕ) → Database → Answer
  answer_page q c db =
      let f = filters_of q c in
      let listing = list_media api.to_lower_case f db in
      page_answer q listing (count_media api.to_lower_case f db)
        (items_of q.include_asset listing.rows)

  abbrev pub with_decoded : ListQuery → Database → Decoded → Answer
  with_decoded q db (bad message) = error (bad_request message)
  with_decoded q db (cursor key) = answer_page q (some key) db

  -- `query.cursor ? decodeCursor(query.cursor) : undefined`.
  unfoldable pub with_cursor : ListQuery → Option String → Database → Answer
  unfolding answer_page
  with_cursor q none db = answer_page q none db
  with_cursor q (some String.[]) db = answer_page q none db
  with_cursor q (some (String.◌∷◌ c cs)) db =
      with_decoded q db (decode_cursor api.text (String.◌∷◌ c cs))

  abbrev pub untracked : String → String
  untracked name =
      String.◌++◌ "hashtag \"" (
        String.◌++◌ name (String.◌++◌ "\" is not tracked. Track it with: pnpm hashtag:track " name))

  -- The check that the hashtag is tracked.
  unfoldable pub is_tracked : Option String → Database → Bool
  is_tracked tag db =
      if truthy tag
      then elim (find_by_name api.trim api.to_lower_case (or_empty tag) db) [
        | none ↦ Bool.false
        | some h ↦ Bool.true
      ]
      else Bool.true

  unfoldable pub with_query : Option ListQuery → Database → Answer
  unfolding with_cursor
  with_query none db = error zod_error
  with_query (some q) db =
      if is_tracked q.hashtag db
      then with_cursor q q.cursor db
      else error (not_found (untracked (or_empty q.hashtag)))

  unfoldable pub get_hashtags : Fields → Database → Answer
  unfolding with_query
  get_hashtags query db = with_query (list_query api.coercions query) db
