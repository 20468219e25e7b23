-- ===== src/Asset/Settled.antt =====
-- The row of an asset after MediaAssetService.download (src/api/services/MediaAssetService.ts).
use saral.Base.{
  ℕ, ◌≡◌, refl, ◌≢◌, ◌⊎◌, inl, inr, true, false, Option, none, some, String, arith, Bool-cases,
  Option-cases, sym,
}
use mathlib.Core.Path.{subst}
use saral.Meta.Client.Paginate.{truthy}
use saral.Store.Tables.{Database, MediaPost, MediaAsset, AssetStatus, stored, downloading}
use saral.Store.Rows.{find-update_where}
use saral.Store.Assets.{
  slice_from_start, of_media, find_by_media_id, mark_downloading, mark_failed, mark_skipped,
}
use saral.Asset.Storage.{Attempt, got, threw, Storage}
use saral.Asset.Download.{
  DownloadResult, DownloadError, media_gone, thrown, cdn_status, no_body, size_mismatch, Machine,
  Shelf, find_post, is_stored, fetched_from, url_text, skipped_result, write, keep_object,
  store_file, stage_body, read_response, attempt, caught, fetch_media, download,
}
use saral.Asset.Tried.{IsKept, Tried, IsFrom, attempt-Tried}

module _ {W : Type 0} (m : Machine W) (storage : Storage W) (media_id : ℕ) where
  -- A job that threw `e` leaves the row failed, with the message of the error, or downloading where
  -- it was the working directory that could not be made.
  abbrev pub IsBroken : DownloadError → Database → Type 0
  IsBroken e db =
      (b : MediaAsset) × (find_by_media_id media_id db ≡ some b)
      × (((b.status ≡ AssetStatus.failed)
            × (b.last_error ≡ some (slice_from_start 2000 (m.message_of e))))
          ⊎ ((b.status ≡ downloading)
              × ((w : W) × (x : String) × ((m.make_work_dir w).1 ≡ some x) × (e ≡ thrown x))))

  -- How a download that was begun leaves the row.
  abbrev Fetched : String → Shelf W × Attempt DownloadResult DownloadError → Type 0
  Fetched url (s, got r) = IsKept m storage media_id r s.db × IsFrom m storage media_id url r
  Fetched url (s, threw e) = IsBroken e s.db

  caught-Fetched :
      (url : String) (before : Database) (r : Shelf W × Attempt DownloadResult DownloadError)
      (a : MediaAsset)
      → find_by_media_id media_id before ≡ some a
      → Tried m storage media_id (IsFrom m storage media_id url) before r
      → Fetched url (caught m storage media_id r)
  unfolding caught mark_failed
  caught-Fetched url before (s, got r) a there h = h
  caught-Fetched url before (s, threw e) a there h = (
    _,
    find-update_where (of_media media_id) _ (λ x. refl) s.db.media_assets a (rw (sym h) at there),
    inl (refl, refl),
  )

  fetch_media-Fetched :
      (url : String) (s : Shelf W) (a : MediaAsset)
      → find_by_media_id media_id s.db ≡ some a
      → Fetched url (fetch_media m storage media_id url s)
  unfolding fetch_media mark_downloading
  fetch_media-Fetched url s a there =
      let s1 = write m storage media_id (λ now. mark_downloading now media_id) s in
      let begun = find-update_where (of_media media_id) _ (λ x. refl) s.db.media_assets a there in
      let (w2, broken) = m.make_work_dir s1.outside in
      elim (Option-cases broken) [
        | inr (e, h) ↦ rw (h, fetch_media) (_, begun, inr (refl, (s1.outside, e, h, refl)))
        | inl h ↦
            let s2 : Shelf W = record s1 { outside = w2 } in
            rw (h, fetch_media)
              (caught-Fetched url s2.db (attempt m storage media_id url s2) _ begun
                (attempt-Tried m storage media_id url s2 _ begun))
      ]

  -- The URL to fetch: the asset's own, or that of the post where the asset has none.
  abbrev pub IsUrl : MediaAsset → MediaPost → Option String → Type 0
  IsUrl a post o =
      ((a.fetched_from_url ≡ none) × (o ≡ post.source_media_url))
      ⊎ ((a.fetched_from_url ≢ none) × (o ≡ a.fetched_from_url))

  -- What a download does from `s0`, to a row that was as `a`.
  abbrev pub Settles :
      Shelf W → MediaAsset → Shelf W × Attempt DownloadResult DownloadError → Type 0
  Settles s0 a (s, got r) =
      (post : MediaPost) × (find_post media_id s0.db ≡ some post)
      × (((r ≡ skipped_result) × (a.status ≡ stored) × (find_by_media_id media_id s.db ≡ some a))
          ⊎ ((r ≡ skipped_result)
              × (a.status ≢ stored)
              × (IsUrl a post none ⊎ IsUrl a post (some ""))
              × ((b : MediaAsset) × (find_by_media_id media_id s.db ≡ some b)
                  × (b.status ≡ AssetStatus.skipped)))
          ⊎ ((a.status ≢ stored)
              × ((url : String) × IsUrl a post (some url)
                  × (url ≢ "")
                  × IsFrom m storage media_id url r)
              × IsKept m storage media_id r s.db))
  Settles s0 a (s, threw media_gone) = (find_post media_id s0.db ≡ none) × (s.db ≡ s0.db)
  Settles s0 a (s, threw e) = (a.status ≢ stored) × IsBroken e s.db

  Fetched-Settles :
      (s0 : Shelf W) (a : MediaAsset) (post : MediaPost) (url : String)
      (r : Shelf W × Attempt DownloadResult DownloadError)
      → find_post media_id s0.db ≡ some post
      → a.status ≢ stored
      → IsUrl a post (some url)
      → url ≢ ""
      → r.1 ≢ threw media_gone
      → Fetched url r
      → Settles s0 a r
  Fetched-Settles s0 a post url (s, got r) p n u f ne (kept, from) =
      (post, p, inr (inr (n, (url, u, f, from), kept)))
  Fetched-Settles s0 a post url (s, threw media_gone) p n u f ne h = absurd (ne refl)
  Fetched-Settles s0 a post url (s, threw (cdn_status k)) p n u f ne h = (n, h)
  Fetched-Settles s0 a post url (s, threw no_body) p n u f ne h = (n, h)
  Fetched-Settles s0 a post url (s, threw (size_mismatch j k)) p n u f ne h = (n, h)
  Fetched-Settles s0 a post url (s, threw (thrown e)) p n u f ne h = (n, h)

  pub fetch_media-ne-gone :
      (url : String) (s : Shelf W) → (fetch_media m storage media_id url s).1 ≢ threw media_gone
  unfolding fetch_media caught attempt read_response stage_body store_file keep_object
  fetch_media-ne-gone url s = ground arith

  is_stored→stored : (x : AssetStatus) → is_stored x ≡ true → x ≡ stored
  is_stored→stored x h = ground arith

  stored→is_stored : (x : AssetStatus) → x ≡ stored → is_stored x ≡ true
  stored→is_stored x h = ground arith

  fetched_from-IsUrl :
      (a : MediaAsset) (post : MediaPost)
      → IsUrl a post (fetched_from (some a) post.source_media_url)
  fetched_from-IsUrl a post = elim (Option-cases a.fetched_from_url) [
    | inl h ↦ rw h (inl (refl, refl))
    | inr (url, h) ↦ rw h (inr (λ e. cc, refl))
  ]

  truthy_text : (o : Option String) → truthy o ≡ true → (o ≡ some (url_text o)) × (url_text o ≢ "")
  truthy_text none h = cc
  truthy_text (some String.[]) h = cc
  truthy_text (some (String.◌∷◌ c s)) h = (refl, λ e. cc)

  not_truthy : (o : Option String) → truthy o ≡ false → (o ≡ none) ⊎ (o ≡ some "")
  not_truthy none h = inl refl
  not_truthy (some String.[]) h = inr refl
  not_truthy (some (String.◌∷◌ c s)) h = cc

  -- Let a post's asset have a row. A download job that reports a skip leaves a `stored` row as it was;
  -- any other was without a URL, and is `skipped`. A job that reports a file had fetched it, with a
  -- good response, from the asset's URL or else the post's, for a row that was not `stored`; the row
  -- is `stored`, with the hash of that response's body, and the key and the size that the job reports,
  -- and without an error. A job that throws because the post is gone leaves every row. Any other that
  -- throws leaves a row, not `stored` before, that is `failed` with the error's message, cut at 2000;
  -- or `downloading`, if it threw because the working directory could not be made.
  pub download-Settles :
      (s : Shelf W) (a : MediaAsset)
      → find_by_media_id media_id s.db ≡ some a
      → Settles s a (download m storage media_id s)
  unfolding download mark_skipped
  download-Settles s a there = elim (Option-cases (find_post media_id s.db)) [
    | inl h ↦
        let same : download m storage media_id s ≡ (s, threw media_gone) = rw (h, download) refl in
        rw same (h, refl)
    | inr (media, h) ↦
        let o = fetched_from (some a) media.source_media_url in
        let right = fetched_from-IsUrl a media in
        elim (Bool-cases (is_stored a.status)) [
          | inl k ↦
              let same : download m storage media_id s ≡ (s, got skipped_result) =
                rw (h, there, k, download) refl in
              rw same (media, h, inl (refl, is_stored→stored a.status k, there))
          | inr k ↦
              let fresh : a.status ≢ stored =
                λ e. let yes : is_stored a.status ≡ true = stored→is_stored a.status e in cc in
              elim (Bool-cases (truthy o)) [
                | inl l ↦
                    let url = url_text o in
                    let (some_url, filled) = truthy_text o l in
                    let same : download m storage media_id s
                        ≡ fetch_media m storage media_id url s =
                      rw (h, there, k, l, download) refl in
                    rw same (
                      Fetched-Settles s a media url (fetch_media m storage media_id url s) h fresh
                        (subst (λ x. IsUrl a media x) some_url right) filled
                        (fetch_media-ne-gone url s) (fetch_media-Fetched url s a there))
                | inr l ↦
                    let wrote =
                      write m storage media_id
                        (λ now. mark_skipped now media_id "no media_url provided by Meta") s in
                    let same : download m storage media_id s ≡ (wrote, got skipped_result) =
                      rw (h, there, k, l, download) refl in
                    rw same (
                      media,
                      h,
                      inr (
                          inl (
                            refl,
                            fresh,
                            elim (not_truthy o l) [
                              | inl e ↦ inl (subst (λ x. IsUrl a media x) e right)
                              | inr e ↦ inr (subst (λ x. IsUrl a media x) e right)
                            ],
                            (
                              _,
                              find-update_where (of_media media_id) _ (λ x. refl) s.db.media_assets
                                  a there,
                              refl,
                            ),
                          )),
                    )
              ]
        ]
  ]
