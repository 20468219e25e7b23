-- ===== src/Http/Replies.antt =====
-- What a client of GET /hashtags is told: src/api/controllers/HashtagController.ts with the error
-- handler of src/api/middlewares/errorHandler.ts behind it.
use saral.Base.{ℕ, ◌≤◌, ◌≡◌, ◌↔◌, ◌⊎◌, Bool, false, Option, none, some, String, length}
use saral.Json.{Fields}
use saral.Store.Tables.{Database}
use saral.Query.Listing.{list_media, next_cursor}
use saral.Http.Errors.{zod_error, not_found, bad_request, error_handler}
use saral.Asset.Storage.{threw}
use saral.Http.Request.{ListQuery, list_query}
use saral.Http.Listing.{Api, Answer, json, error, filters_of, items_of, answer_page}

-- The status of the reply.
abbrev pub status_code : (is_production : Bool) → Answer → ℕ
status_code is_production (json p) = 200
status_code is_production (error e) = (error_handler is_production e).status

-- Where an answer comes from: one of the three refusals, or a page of a valid query.
data Ends (api : Api) (fs : Fields) (db : Database) : Answer → Type 0 where
  invalid : list_query api.coercions fs ≡ none → Ends api fs db (error zod_error)
  untracked_tag : (message : String) → Ends api fs db (error (not_found message))
  bad_cursor : (message : String) → Ends api fs db (error (bad_request message))
  paged :
      (q : ListQuery) (c : Option (ℕ × ℕ))
      → list_query api.coercions fs ≡ some q
      → Ends api fs db (answer_page api q c db)

-- A page that is served says the truth about itself.
abbrev IsSound : Answer → Type 0
IsSound (error e) = Unit
IsSound (json p) =
    (1 ≤ p.limit)
    × (p.limit ≤ 100)
    × (p.count ≡ length p.data_items)
    × (p.count ≤ p.limit)
    × ((p.next_cursor ≡ none) ↔ (p.has_more ≡ false))

-- A reply: a page that is sound, a refusal, or a failure of the storage's locator for a row of the
-- page that was asked for.
abbrev pub IsReply : Api → Fields → Database → (is_production : Bool) → Answer → Type 0
IsReply api fs db is_production a =
    IsSound a
    × ((status_code is_production a ≡ 200)
        ⊎ (status_code is_production a ≡ 400)
        ⊎ (status_code is_production a ≡ 404)
        ⊎ ((status_code is_production a ≡ 500)
            × (q : ListQuery) × (c : Option (ℕ × ℕ)) × (e : String) × (list_query api.coercions fs
                ≡ some q)
            × (items_of api q.include_asset (list_media api.to_lower_case (filters_of q c) db).rows
                ≡ threw e)))
