-- ===== src/Store/Assets.antt =====
-- src/api/repositories/MediaAssetRepository.ts.
use saral.Base.{
  ℕ, ◌+◌, ◌-◌, Bool, true, false, Option, none, some, List, [], ◌∷◌, ◌++◌, String, leb, ◌==◌,
  if◌then◌else◌, find, keep, take,
}
use Prim.Native.Char.{code}
use saral.Meta.Client.Paginate.{truthy}
use saral.Store.Tables.{
  Database, MediaAsset, AssetStatus, pending, downloading, stored, failed, skipped, update_where,
}

-- `s.slice(0, n)`. A code point above 0xFFFF takes two UTF-16 units; one that the end would cut in
-- two is left out.
unfoldable pub slice_from_start : ℕ → String → String
slice_from_start n String.[] = String.[]
slice_from_start n (String.◌∷◌ c s) =
    let units = if leb (code c) 65535 then 1 else 2 in
    let rest = slice_from_start (n - units) s in
    if leb units n then String.◌∷◌ c rest else String.[]

abbrev pub of_media : ℕ → MediaAsset → Bool
of_media media_id a = a.media_id == media_id

-- `findByMediaId`.
abbrev pub find_by_media_id : ℕ → Database → Option MediaAsset
find_by_media_id media_id db = find (of_media media_id) db.media_assets

unfoldable pub new_asset : (id now media_id : ℕ) → Option String → MediaAsset
new_asset id now media_id source_url = record {
  id = id;
  media_id = media_id;
  status = if truthy source_url then pending else skipped;
  sha256 = none;
  storage_key = none;
  storage_provider = none;
  content_type = none;
  size_bytes = none;
  fetched_from_url = source_url;
  attempts = 0;
  last_error = none;
  download_started_at = none;
  stored_at = none;
  created_at = now;
  updated_at = now;
}

abbrev pub is_pending : AssetStatus → Bool
is_pending pending = true
is_pending s = false

abbrev pub refresh_asset : ℕ → Option String → MediaAsset → MediaAsset
refresh_asset now source_url a = record a { fetched_from_url = source_url; updated_at = now }

-- INSERT … ON CONFLICT (media_id) DO UPDATE: the database, the row's id and `created`.
unfoldable pub ensure_pending : (now media_id : ℕ) → Option String → Database → Database × ℕ × Bool
unfolding new_asset
ensure_pending now media_id source_url db = elim (find (of_media media_id) db.media_assets) [
  | none ↦
      let row = new_asset db.drawn now media_id source_url in
      (
        record db { media_assets = db.media_assets ++ row ∷ []; drawn = db.drawn + 1 },
        row.id,
        is_pending row.status,
      )
  | some a ↦ (
    record db {
      media_assets =
          update_where (of_media media_id) (refresh_asset now source_url) db.media_assets;
    },
    a.id,
    is_pending a.status,
  )
]

abbrev pub update_asset : ℕ → (MediaAsset → MediaAsset) → Database → Database
update_asset media_id f db = record db {
  media_assets = update_where (of_media media_id) f db.media_assets;
}

unfoldable pub mark_downloading : (now media_id : ℕ) → Database → Database
mark_downloading now media_id = update_asset media_id (λ a. record a {
  status = downloading;
  download_started_at = some now;
  attempts = a.attempts + 1;
  updated_at = now;
})

pub record StoredInput : Type 0 where
  pub sha256 : String
  pub storage_key : String
  pub storage_provider : String
  pub content_type : Option String
  pub size_bytes : ℕ

unfoldable pub mark_stored : (now media_id : ℕ) → StoredInput → Database → Database
mark_stored now media_id s = update_asset media_id (λ a. record a {
  status = stored;
  sha256 = some s.sha256;
  storage_key = some s.storage_key;
  storage_provider = some s.storage_provider;
  content_type = s.content_type;
  size_bytes = some s.size_bytes;
  stored_at = some now;
  last_error = none;
  updated_at = now;
})

unfoldable pub mark_failed : (now media_id : ℕ) → String → Database → Database
mark_failed now media_id error = update_asset media_id (λ a. record a {
  status = failed;
  last_error = some (slice_from_start 2000 error);
  updated_at = now;
})

unfoldable pub mark_skipped : (now media_id : ℕ) → String → Database → Database
mark_skipped now media_id reason = update_asset media_id (λ a. record a {
  status = skipped;
  last_error = some (slice_from_start 2000 reason);
  updated_at = now;
})

abbrev pub is_retryable : AssetStatus → Bool
is_retryable pending = true
is_retryable failed = true
is_retryable downloading = true
is_retryable s = false

-- The order of the rows, which the query leaves open, is that of the table.
unfoldable pub find_retryable : ℕ → Database → List MediaAsset
find_retryable limit db = take limit (keep (λ a. is_retryable a.status) db.media_assets)
