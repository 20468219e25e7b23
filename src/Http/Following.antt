-- ===== src/Http/Following.antt =====
-- A client that follows `nextCursor` through GET /hashtags
-- (src/api/controllers/HashtagController.ts), and what it reads.
use saral.Base.{
  ℕ, zero, suc, ◌≡◌, ◌≢◌, refl, sym, ap, ◌∙◌, true, Option, none, some, List, [], ◌∷◌, ◌++◌, String,
  All, length, Option-cases, Bool-cases, inl, inr, keep, take, ltb, ◌&&◌,
}
use mathlib.Core.Path.{subst}
use saral.Json.{Fields, str, field}
use saral.Store.Tables.{Database}
use saral.Query.Listing.{
  ListMediaFilters, ListMediaRow, key, join_rows, list_media, next_cursor, read_pages, count_media,
  order_rows, last_row, key_of, selected, past,
}
use saral.Query.Order.{IsDistinct, order_rows-All, keep-All}
use saral.Query.Paging.{full_listing, read_pages_complete, read_pages-end, read_pages-next}
use saral.Asset.Storage.{got}
use saral.Http.Cursor.{encode_cursor, decode_cursor, IsCodable, decode_cursor-encode_cursor}
use saral.Http.Request.{ListQuery, list_query}
use saral.Http.Queries.{list_query-field, list_query-limit}
use saral.Http.Showing.{IsServable, items_of_got, items_of-append}
use saral.Http.Listing.{
  Api, Item, Answer, json, error, filters_of, items_of, page_answer, answer_page, with_decoded,
  with_cursor, is_tracked, with_query, get_hashtags,
}

-- The client: it asks for a page, and for the next one with the cursor that the page names.
abbrev append_rest : (String → List Item) → List Item → Option String → List Item
append_rest next items none = items
append_rest next items (some c) = items ++ next c

abbrev follow_on : (String → List Item) → Answer → List Item
follow_on next (error e) = []
follow_on next (json p) = append_rest next p.data_items p.next_cursor

unfoldable pub follow : ℕ → Api → Fields → Database → List Item
follow zero api query db = []
follow (suc fuel) api query db =
    follow_on (λ c. follow fuel api (field "cursor" (str c) query) db) (get_hashtags api query db)

module _ (P : ListMediaRow → Type 0) where
  take_All : (n : ℕ) (rows : List ListMediaRow) → All P rows → All P (take n rows)
  take_All zero rows h = tt
  take_All (suc n) [] h = tt
  take_All (suc n) (r ∷ rs) (k, h) = (k, take_All n rs h)

  last_row_All :
      (rows : List ListMediaRow) (c : ℕ × ℕ)
      → All P rows
      → key_of (last_row rows) ≡ some c
      → (r : ListMediaRow) × (key r ≡ c) × P r
  last_row_All [] c h e = cc
  last_row_All (r ∷ []) c (k, h) e = (r, cc, k)
  last_row_All (r ∷ s ∷ ss) c (k, h) e = last_row_All (s ∷ ss) c h e

  -- The row that a cursor stands for is one of those that the query joins.
  next_cursor_All :
      (to_lower_case : String → String) (f : ListMediaFilters) (db : Database) (c : ℕ × ℕ)
      → All P (join_rows db db.media_posts)
      → next_cursor (list_media to_lower_case f db) ≡ some c
      → (r : ListMediaRow) × (key r ≡ c) × P r
  unfolding list_media
  next_cursor_All to_lower_case f db c h e =
      let f_rows =
        keep (λ (r : ListMediaRow). selected to_lower_case f r && past f.cursor r)
          (join_rows db db.media_posts) in
      let all =
        take_All (suc f.limit) (order_rows f_rows) (order_rows-All P f_rows (keep-All P _ _ h)) in
      let more? = ltb f.limit (length (take (suc f.limit) (order_rows f_rows))) in
      elim (Bool-cases more?) [
        | inl more ↦ last_row_All _ c (take_All f.limit _ all) (rw more at e)
        | inr done ↦ let impossible : none ≡ some c = rw done at e in cc
      ]

module _ (api : Api) (db : Database) where
  list_media_All :
      (f : ListMediaFilters)
      → All (IsServable api) (join_rows db db.media_posts)
      → All (IsServable api) (list_media api.to_lower_case f db).rows
  unfolding list_media
  list_media_All f h =
      let f_rows =
        keep (λ (r : ListMediaRow). selected api.to_lower_case f r && past f.cursor r)
          (join_rows db db.media_posts) in
      let all =
        take_All (IsServable api) (suc f.limit) (order_rows f_rows)
          (order_rows-All (IsServable api) f_rows (keep-All (IsServable api) _ _ h)) in
      elim (Bool-cases (ltb f.limit (length (take (suc f.limit) (order_rows f_rows))))) [
        | inl more ↦ rw more (take_All (IsServable api) f.limit _ all)
        | inr done ↦ rw done all
      ]

  with_cursor_text :
      (q : ListQuery) (s : String)
      → s ≢ ""
      → with_cursor api q (some s) db ≡ with_decoded api q db (decode_cursor api.text s)
  unfolding with_cursor
  with_cursor_text q String.[] full = absurd (full refl)
  with_cursor_text q (String.◌∷◌ c cs) full = refl

  -- A query with a cursor that was handed out is answered by the page behind it.
  get_hashtags-next :
      (fs : Fields) (q : ListQuery) (k : ℕ × ℕ)
      → list_query api.coercions fs ≡ some q
      → is_tracked api q.hashtag db ≡ true
      → IsCodable api.text k
      → let fs' = field "cursor" (str (encode_cursor api.text k)) fs in
        (list_query api.coercions fs'
          ≡ some (record q { cursor = some (encode_cursor api.text k) }))
        × (get_hashtags api fs' db ≡ answer_page api q (some k) db)
  unfolding get_hashtags
  get_hashtags-next fs q k read tracked codable =
      let read' =
        list_query-field api.coercions fs q (encode_cursor api.text k) codable.some_text read in
      let q' : ListQuery = record q { cursor = some (encode_cursor api.text k) } in
      (
        read',
        ap (λ r. with_query api r db) read'
            ∙ rw (tracked, with_query)
                (with_cursor_text q' (encode_cursor api.text k) codable.some_text
                  ∙ ap (with_decoded api q' db) (decode_cursor-encode_cursor api.text k codable)),
      )

  -- From a query whose answer is the page behind the key `c`, the client reads what is behind `c`.
  follow_page :
      (fuel : ℕ) (fs : Fields) (q : ListQuery) (c : Option (ℕ × ℕ))
      → All (IsServable api) (join_rows db db.media_posts)
      → list_query api.coercions fs ≡ some q
      → is_tracked api q.hashtag db ≡ true
      → get_hashtags api fs db ≡ answer_page api q c db
      → items_of api q.include_asset (read_pages fuel api.to_lower_case (filters_of q c) db)
        ≡ got (follow fuel api fs db)
  unfolding follow read_pages answer_page
  follow_page zero fs q c servable read tracked here = unfold items_of in refl
  follow_page (suc fuel) fs q c servable read tracked here =
      let listing = list_media api.to_lower_case (filters_of q c) db in
      let (items, shown) =
        items_of_got api q.include_asset listing.rows (list_media_All (filters_of q c) servable) in
      let page : Answer =
        page_answer api q listing (count_media api.to_lower_case (filters_of q c) db) (got items) in
      let answered : get_hashtags api fs db ≡ page =
        here ∙ unfold answer_page in ap (page_answer api q listing _) shown in
      elim (Option-cases (next_cursor listing)) [
        | inl last ↦
            rw (read_pages-end api.to_lower_case db fuel (filters_of q c) last, answered, last)
              shown
        | inr (k, more) ↦
            let (row, here_is, (codable, has)) =
              next_cursor_All (IsServable api) api.to_lower_case (filters_of q c) db k servable
                more in
            let (read', next) =
              get_hashtags-next fs q k read tracked (subst (IsCodable api.text) here_is codable) in
            let rest =
              follow_page fuel (field "cursor" (str (encode_cursor api.text k)) fs)
                (record q { cursor = some (encode_cursor api.text k) }) (some k) servable read'
                tracked next in
            rw (read_pages-next api.to_lower_case db fuel (filters_of q c) k more, answered, more)
              (items_of-append api q.include_asset listing.rows
                (read_pages fuel api.to_lower_case (filters_of q (some k)) db) items _ shown rest)
      ]

  -- Let a query without a cursor be valid and its hashtag tracked, if it names one, let no two rows
  -- that are joined share an id, and let each of those rows have a key that the runtime codes and a
  -- locator for its stored object. Then a client that follows `nextCursor` until it is null is
  -- served, in fewer requests than there are rows and two, exactly what the controller shows of the
  -- whole ordered listing, each row once.
  pub follow-full_listing :
      (fs : Fields) (q : ListQuery)
      → list_query api.coercions fs ≡ some q
      → q.cursor ≡ none
      → is_tracked api q.hashtag db ≡ true
      → IsDistinct (join_rows db db.media_posts)
      → All (IsServable api) (join_rows db db.media_posts)
      → let rows = full_listing api.to_lower_case db (filters_of q none) in
        items_of api q.include_asset rows ≡ got (follow (suc (length rows)) api fs db)
  follow-full_listing fs q read first tracked distinct servable =
      let f = filters_of q none in
      let rows = full_listing api.to_lower_case db f in
      let here : get_hashtags api fs db ≡ answer_page api q none db =
        unfold get_hashtags in
        (ap (λ r. with_query api r db) read ∙ rw (tracked, first, with_query) refl) in
      ap (items_of api q.include_asset) (
        sym
          (read_pages_complete api.to_lower_case db f distinct
            (list_query-limit api.coercions fs q read).0 refl).0)
      ∙ (follow_page (suc (length rows)) fs q none servable read tracked here)
