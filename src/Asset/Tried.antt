-- ===== src/Asset/Tried.antt =====
-- What the `try` of MediaAssetService.download (src/api/services/MediaAssetService.ts) does to the row of
-- the asset.
use saral.Base.{
  ℕ, ◌≡◌, refl, ◌≢◌, inl, inr, true, Option, none, some, List, String, ◌==◌, if◌then◌else◌, length,
  Bool-cases, Option-cases,
}
use saral.Meta.Client.Paginate.{truthy}
use saral.Store.Tables.{Database, MediaAsset, stored}
use saral.Store.Rows.{find-update_where}
use saral.Store.Assets.{of_media, find_by_media_id, mark_stored}
use saral.Asset.Storage.{
  Attempt, got, threw, Attempt-cases, StoredObject, PutOptions, Storage, content_addressed_key,
  extension_for_content_type,
}
use saral.Asset.Download.{
  DownloadStatus, newly_stored, deduplicated, DownloadResult, DownloadError, no_body, CdnResponse,
  Machine, Shelf, keep_object, store_file, stage_body, read_response, attempt,
}

module _ {W : Type 0} (m : Machine W) (storage : Storage W) (media_id : ℕ) where
  -- What the row says after a result of the `try`, and after the whole.
  abbrev pub IsKept : DownloadResult → Database → Type 0
  IsKept r db =
      (a : MediaAsset) × (find_by_media_id media_id db ≡ some a)
      × (a.status ≡ stored)
      × (a.sha256 ≡ r.sha256)
      × (a.storage_key ≡ r.storage_key)
      × (a.size_bytes ≡ r.size_bytes)
      × (a.last_error ≡ none)
      × (r.status ≢ DownloadStatus.skipped)

  abbrev pub Tried :
      (DownloadResult → Type 0) → Database → Shelf W × Attempt DownloadResult DownloadError → Type 0
  Tried Q before (s, got r) = IsKept r s.db × Q r
  Tried Q before (s, threw e) = s.db ≡ before

  Tried-weaken :
      (Q R : DownloadResult → Type 0) (before : Database)
      (o : Shelf W × Attempt DownloadResult DownloadError)
      → ((r : DownloadResult) → Q r → R r)
      → Tried Q before o
      → Tried R before o
  Tried-weaken Q R before (s, got r) f (kept, q) = (kept, f r q)
  Tried-weaken Q R before (s, threw e) f h = h

  -- The result has the hash.
  abbrev Hashed : String → DownloadResult → Type 0
  Hashed sha256 r = r.sha256 ≡ some sha256

  -- The response is good, and the result has the hash of its body.
  abbrev pub IsGood : CdnResponse → DownloadResult → Type 0
  IsGood response r =
      (response.ok ≡ true)
      × ((body : List ℕ) × (response.body ≡ some body) × (r.sha256 ≡ some (m.sha256 body)))

  -- The result is that of a good response which `fetch` gave for the URL.
  abbrev pub IsFrom : String → DownloadResult → Type 0
  IsFrom url r =
      (w : W) × (response : CdnResponse) × ((m.fetch url w).1 ≡ got response) × IsGood response r

  keep_object-IsKept :
      (status : DownloadStatus) (sha256 : String) (o : StoredObject) (s : Shelf W) (a : MediaAsset)
      → status ≢ DownloadStatus.skipped
      → find_by_media_id media_id s.db ≡ some a
      → Tried (Hashed sha256) s.db (keep_object m storage media_id status sha256 o s)
  unfolding keep_object mark_stored
  keep_object-IsKept status sha256 o s a ne there = (
    (
      _,
      find-update_where (of_media media_id) _ (λ x. refl) s.db.media_assets a there,
      refl,
      refl,
      refl,
      refl,
      refl,
      ne,
    ),
    refl,
  )

  store_file-Tried :
      (body : List ℕ) (sha256 : String) (content_type : Option String) (size : ℕ) (s : Shelf W)
      (a : MediaAsset)
      → find_by_media_id media_id s.db ≡ some a
      → Tried (Hashed sha256) s.db (store_file m storage media_id body sha256 content_type size s)
  unfolding store_file
  store_file-Tried body sha256 content_type size s a there =
      let key =
        content_addressed_key sha256 (extension_for_content_type m.normalize content_type) in
      let (w1, found) = storage.exists key s.outside in
      let options : PutOptions = record {
        content_type = if truthy content_type then content_type else none;
        content_length = size;
      } in
      let (w2, put) = storage.put_stream key body options w1 in
      elim (Attempt-cases found) [
        | inl (e, h) ↦ rw (h, store_file) refl
        | inr (there_already, h) ↦ elim (Bool-cases there_already) [
          | inl k ↦
              rw (h, k, store_file)
                (keep_object-IsKept deduplicated sha256 _ (record s { outside = w1 }) a (λ e. cc)
                  there)
          | inr k ↦ elim (Attempt-cases put) [
            | inl (e, l) ↦ rw (h, k, l, store_file) refl
            | inr (o, l) ↦
                rw (h, k, l, store_file)
                  (keep_object-IsKept newly_stored sha256 o (record s { outside = w2 }) a (λ e. cc)
                    there)
          ]
        ]
      ]

  stage_body-Tried :
      (body : List ℕ) (content_type : Option String) (s : Shelf W) (a : MediaAsset)
      → find_by_media_id media_id s.db ≡ some a
      → Tried (Hashed (m.sha256 body)) s.db (stage_body m storage media_id body content_type s)
  unfolding stage_body
  stage_body-Tried body content_type s a there =
      let (w1, staged) = m.stage body s.outside in
      elim (Attempt-cases staged) [
        | inl (e, h) ↦ rw (h, stage_body) refl
        | inr (size, h) ↦ elim (Bool-cases (size == length body)) [
          | inl k ↦
              rw (h, k, stage_body)
                (store_file-Tried body (m.sha256 body) content_type size (record s { outside = w1 })
                  a there)
          | inr k ↦ rw (h, k, stage_body) refl
        ]
      ]

  read_response-Tried :
      (r : CdnResponse) (s : Shelf W) (a : MediaAsset)
      → find_by_media_id media_id s.db ≡ some a
      → Tried (IsGood r) s.db (read_response m storage media_id r s)
  unfolding read_response
  read_response-Tried r s a there = elim (Bool-cases r.ok) [
    | inr bad ↦ rw (bad, read_response) refl
    | inl good ↦ elim (Option-cases r.body) [
      | inl empty ↦
          let same : read_response m storage media_id r s ≡ (s, threw no_body) =
            rw (good, empty, read_response) refl in
          rw same refl
      | inr (body, full) ↦
          let same : read_response m storage media_id r s
              ≡ stage_body m storage media_id body r.content_type s =
            rw (good, full, read_response) refl in
          rw same (
            Tried-weaken (Hashed (m.sha256 body)) (IsGood r) s.db
              (stage_body m storage media_id body r.content_type s)
              (λ result h. (good, (body, full, h)))
              (stage_body-Tried body r.content_type s a there))
    ]
  ]

  pub attempt-Tried :
      (url : String) (s : Shelf W) (a : MediaAsset)
      → find_by_media_id media_id s.db ≡ some a
      → Tried (IsFrom url) s.db (attempt m storage media_id url s)
  unfolding attempt
  attempt-Tried url s a there =
      let (w1, answer) = m.fetch url s.outside in
      elim (Attempt-cases answer) [
        | inl (e, h) ↦ rw (h, attempt) refl
        | inr (r, h) ↦
            let s1 : Shelf W = record s { outside = w1 } in
            rw (h, attempt)
              (Tried-weaken (IsGood r) (IsFrom url) s.db (read_response m storage media_id r s1)
                (λ result good. (s.outside, r, h, good)) (read_response-Tried r s1 a there))
      ]
