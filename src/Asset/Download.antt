-- ===== src/Asset/Download.antt =====
-- MediaAssetService.download of src/api/services/MediaAssetService.ts. The runtime's file system,
-- `fetch` and the hash are an interface over a world `W`; the removal of the temporary directory
-- at the end changes nothing that is modelled.
use saral.Base.{
  ℕ, Bool, true, false, not, Option, none, some, List, String, ◌==◌, if◌then◌else◌, find, length,
}
use saral.Meta.Client.Paginate.{truthy}
use saral.Store.Tables.{Database, MediaPost, MediaAsset, AssetStatus, stored}
use saral.Store.Assets.{find_by_media_id, mark_downloading, mark_stored, mark_failed, mark_skipped}
use saral.Asset.Storage.{
  Attempt, got, threw, StoredObject, Storage, content_addressed_key, extension_for_content_type,
}

pub data DownloadStatus : Type 0 where
  newly_stored deduplicated skipped : DownloadStatus

pub record DownloadResult : Type 0 where
  pub status : DownloadStatus
  pub sha256 : Option String
  pub storage_key : Option String
  pub size_bytes : Option ℕ

-- `thrown` has the message of an error of the runtime's or of the storage's.
pub data DownloadError : Type 0 where
  media_gone : DownloadError
  cdn_status : (status : ℕ) → DownloadError
  no_body : DownloadError
  size_mismatch : (counted on_disk : ℕ) → DownloadError
  thrown : String → DownloadError

pub record CdnResponse : Type 0 where
  pub ok : Bool
  pub status : ℕ
  pub content_type : Option String
  pub body : Option (List ℕ)

-- `stage` writes the bytes to the temporary file, and answers the size that `stat` reads.
pub record Machine (W : Type 0) : Type 0 where
  pub clock : W → W × ℕ
  pub make_work_dir : W → W × Option String
  pub fetch : String → W → W × Attempt CdnResponse String
  pub stage : List ℕ → W → W × Attempt ℕ String
  pub sha256 : List ℕ → String
  pub normalize : String → String
  pub message_of : DownloadError → String

pub record Shelf (W : Type 0) : Type 0 where
  pub outside : W
  pub db : Database

abbrev pub has_post_id : ℕ → MediaPost → Bool
has_post_id id p = p.id == id

-- `MediaRepository.findById`.
abbrev pub find_post : ℕ → Database → Option MediaPost
find_post id db = find (has_post_id id) db.media_posts

abbrev pub fetched_from : Option MediaAsset → Option String → Option String
fetched_from none source = source
fetched_from (some a) source = elim a.fetched_from_url [ none ↦ source | some url ↦ some url ]

abbrev pub url_text : Option String → String
url_text none = ""
url_text (some s) = s

abbrev pub is_stored : AssetStatus → Bool
is_stored stored = true
is_stored s = false

abbrev pub already_stored : Option MediaAsset → Bool
already_stored none = false
already_stored (some a) = is_stored a.status

abbrev pub skipped_result : DownloadResult
skipped_result = record { status = skipped; sha256 = none; storage_key = none; size_bytes = none }

module _ {W : Type 0} (m : Machine W) (storage : Storage W) (media_id : ℕ) where
  -- A write of the asset's row at the time that the clock gives.
  abbrev pub write : (ℕ → Database → Database) → Shelf W → Shelf W
  write f s =
      let (outside, now) = m.clock s.outside in record { outside = outside; db = f now s.db }

  -- The row of a stored object, and what the caller is told.
  unfoldable pub keep_object :
      DownloadStatus
      → (sha256 : String) → StoredObject
      → Shelf W
      → Shelf W × Attempt DownloadResult DownloadError
  keep_object status sha256 o s = (
    write
        (λ now. mark_stored now media_id (record {
          sha256 = sha256;
          storage_key = o.key;
          storage_provider = o.provider;
          content_type = o.content_type;
          size_bytes = o.size_bytes;
        }))
        s,
    got (record {
      status = status;
      sha256 = some sha256;
      storage_key = some o.key;
      size_bytes = some o.size_bytes;
    }),
  )

  -- Identical bytes are there already, or the file is uploaded.
  unfoldable pub store_file :
      List ℕ
      → (sha256 : String) → Option String
      → ℕ
      → Shelf W
      → Shelf W × Attempt DownloadResult DownloadError
  store_file body sha256 content_type size s =
      let key =
        content_addressed_key sha256 (extension_for_content_type m.normalize content_type) in
      let (w1, there) = storage.exists key s.outside in
      let (w2, put) =
        storage.put_stream key body
          (record {
            content_type = if truthy content_type then content_type else none;
            content_length = size;
          })
          w1 in
      elim there [
        | threw e ↦ (record s { outside = w1 }, threw (thrown e))
        | got found ↦
            if found
            then keep_object deduplicated sha256
                (record {
                  key = key;
                  provider = storage.provider;
                  size_bytes = size;
                  content_type = content_type;
                })
                (record s { outside = w1 })
            else elim put [
              | threw e ↦ (record s { outside = w2 }, threw (thrown e))
              | got o ↦ keep_object newly_stored sha256 o (record s { outside = w2 })
            ]
      ]

  -- The body goes to the temporary file, whose size is checked.
  unfoldable pub stage_body :
      List ℕ → Option String → Shelf W → Shelf W × Attempt DownloadResult DownloadError
  stage_body body content_type s =
      let (w1, staged) = m.stage body s.outside in
      let s1 : Shelf W = record s { outside = w1 } in
      elim staged [
        | threw e ↦ (s1, threw (thrown e))
        | got size ↦
            if size == length body
            then store_file body (m.sha256 body) content_type size s1
            else (s1, threw (size_mismatch (length body) size))
      ]

  unfoldable pub read_response :
      CdnResponse → Shelf W → Shelf W × Attempt DownloadResult DownloadError
  read_response r s =
      if not r.ok
      then (s, threw (cdn_status r.status))
      else elim r.body [ none ↦ (s, threw no_body) | some body ↦ stage_body body r.content_type s ]

  -- The `try`.
  unfoldable pub attempt : String → Shelf W → Shelf W × Attempt DownloadResult DownloadError
  attempt url s =
      let (w1, answer) = m.fetch url s.outside in
      let s1 : Shelf W = record s { outside = w1 } in
      elim answer [ threw e ↦ (s1, threw (thrown e)) | got r ↦ read_response r s1 ]

  -- Its `catch`.
  unfoldable pub caught :
      Shelf W × Attempt DownloadResult DownloadError
      → Shelf W × Attempt DownloadResult DownloadError
  caught (s, got r) = (s, got r)
  caught (s, threw e) = (write (λ now. mark_failed now media_id (m.message_of e)) s, threw e)

  -- From `markDownloading` on. The directory is made outside of the `try`.
  unfoldable pub fetch_media : String → Shelf W → Shelf W × Attempt DownloadResult DownloadError
  fetch_media url s =
      let s1 = write (λ now. mark_downloading now media_id) s in
      let (w2, failed) = m.make_work_dir s1.outside in
      let s2 : Shelf W = record s1 { outside = w2 } in
      elim failed [ some e ↦ (s2, threw (thrown e)) | none ↦ caught (attempt url s2) ]

  unfoldable pub download : Shelf W → Shelf W × Attempt DownloadResult DownloadError
  download s = elim (find_post media_id s.db) [
    | none ↦ (s, threw media_gone)
    | some media ↦
        let asset = find_by_media_id media_id s.db in
        let url = fetched_from asset media.source_media_url in
        let fetched = fetch_media (url_text url) s in
        if already_stored asset then (s, got skipped_result) else if truthy url then fetched else (
          write (λ now. mark_skipped now media_id "no media_url provided by Meta") s,
          got skipped_result,
        )
  ]
