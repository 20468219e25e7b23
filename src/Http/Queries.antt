-- ===== src/Http/Queries.antt =====
-- What the query schema of src/api/controllers/requests/listHashtagMediaRequest.ts accepts.
use saral.Base.{ℕ, ◌≤◌, ◌≡◌, ◌≢◌, refl, Bool, Option, none, some, String, arith}
use saral.Json.{Json, Fields, str, field, property}
use saral.Meta.Schema.{MediaType, media_type, optional, as_string, non_empty, ◌>>=◌}
use saral.Http.Request.{
  ListQuery, Coercions, tag_schema, flag_schema, assemble, limit_schema, list_query,
}

assemble_again :
    (hashtag : Option (Option String)) (limit : Option ℕ) (old : Option (Option String))
    (kind : Option (Option MediaType)) (after before : Option (Option ℕ))
    (stale asset : Option Bool) (q : ListQuery) (c : Option String)
    → assemble hashtag limit old kind after before stale asset ≡ some q
    → assemble hashtag limit (some c) kind after before stale asset ≡ some (record q { cursor = c })
unfolding assemble
assemble_again hashtag limit old kind after before stale asset q c e = ground arith

-- A query with another cursor is read as the same query with that cursor.
pub list_query-field :
    (to : Coercions) (fs : Fields) (q : ListQuery) (c : String)
    → c ≢ ""
    → list_query to fs ≡ some q
    → list_query to (field "cursor" (str c) fs) ≡ some (record q { cursor = some c })
unfolding list_query
list_query-field to fs q String.[] full e = absurd (full refl)
list_query-field to fs q (String.◌∷◌ c cs) full e =
    assemble_again (optional tag_schema (property "hashtag" fs))
      (limit_schema to (property "limit" fs))
      (optional (λ v. as_string v >>= non_empty) (property "cursor" fs))
      (optional media_type (property "mediaType" fs))
      (optional to.to_date (property "takenAfter" fs))
      (optional to.to_date (property "takenBefore" fs)) (flag_schema (property "includeStale" fs))
      (flag_schema (property "includeAsset" fs)) q (some (String.◌∷◌ c cs)) e

limit_schema_bounds :
    (to : Coercions) (o : Option Json) (n : ℕ) → limit_schema to o ≡ some n → (1 ≤ n) × (n ≤ 100)
unfolding limit_schema
limit_schema_bounds to none n e = ground arith
limit_schema_bounds to (some v) n e = ground arith

assemble-limit :
    (tag : Option (Option String)) (limit : Option ℕ) (place : Option (Option String))
    (kind : Option (Option MediaType)) (after before : Option (Option ℕ))
    (stale asset : Option Bool) (q : ListQuery)
    → assemble tag limit place kind after before stale asset ≡ some q
    → limit ≡ some q.limit
unfolding assemble
assemble-limit tag limit place kind after before stale asset q e = ground arith

pub list_query-limit :
    (to : Coercions) (fs : Fields) (q : ListQuery)
    → list_query to fs ≡ some q
    → (1 ≤ q.limit) × (q.limit ≤ 100)
unfolding list_query
list_query-limit to fs q e = limit_schema_bounds to (property "limit" fs) q.limit (
    assemble-limit (optional tag_schema (property "hashtag" fs))
      (limit_schema to (property "limit" fs))
      (optional (λ v. as_string v >>= non_empty) (property "cursor" fs))
      (optional media_type (property "mediaType" fs))
      (optional to.to_date (property "takenAfter" fs))
      (optional to.to_date (property "takenBefore" fs)) (flag_schema (property "includeStale" fs))
      (flag_schema (property "includeAsset" fs)) q e)
