-- ===== src/Http/Request.antt =====
-- The query schema of src/api/controllers/requests/listHashtagMediaRequest.ts, over the properties
-- of `req.query`. The lengths are those of texts of one UTF-16 unit a character. Zod's coercions
-- are arguments: `to_integer` gives the value of `Number(v)` if that is a non-negative integer.
use saral.Base.{ℕ, suc, Bool, true, false, ◌&&◌, Option, none, some, String, leb, if◌then◌else◌}
use text.Mathlib.Text.{◌==◌ as str_eq}
use saral.Json.{Json, Fields, str, property}
use saral.Meta.Schema.{MediaType, media_type, ◌>>=◌, as_string, non_empty, optional}

pub record ListQuery : Type 0 where
  pub hashtag : Option String
  pub limit : ℕ
  pub cursor : Option String
  pub media_type : Option MediaType
  pub taken_after : Option ℕ
  pub taken_before : Option ℕ
  pub include_stale : Bool
  pub include_asset : Bool

pub record Coercions : Type 0 where
  pub to_integer : Json → Option ℕ
  pub to_date : Json → Option ℕ

abbrev pub text_length : String → ℕ
text_length String.[] = 0
text_length (String.◌∷◌ c s) = suc (text_length s)

-- `.min(1).max(255)` of a string.
abbrev pub tag_schema : Json → Option String
tag_schema v = as_string v >>= non_empty >>= λ s. if leb (text_length s) 255 then some s else none

-- `.int().min(1).max(100).default(25)`.
unfoldable pub limit_schema : Coercions → Option Json → Option ℕ
limit_schema to none = some 25
limit_schema to (some v) = to.to_integer v >>= λ n. if leb 1 n && leb n 100 then some n else none

-- `z.enum(['true', 'false']).default('true').transform(…)`.
unfoldable pub flag_schema : Option Json → Option Bool
flag_schema none = some true
flag_schema (some (str s)) =
    if str_eq s "true" then some true else if str_eq s "false" then some false else none
flag_schema (some v) = none

-- The object of the fields, each of which may have failed.
unfoldable pub assemble :
    (hashtag : Option (Option String)) (limit : Option ℕ) (cursor : Option (Option String))
    (kind : Option (Option MediaType)) (after before : Option (Option ℕ))
    (stale asset : Option Bool)
    → Option ListQuery
assemble hashtag? limit? cursor? kind? after? before? stale? asset? = do
  hashtag ← hashtag?
  limit ← limit?
  cursor ← cursor?
  kind ← kind?
  after ← after?
  before ← before?
  stale ← stale?
  asset ← asset?
  some (record {
    hashtag = hashtag;
    limit = limit;
    cursor = cursor;
    media_type = kind;
    taken_after = after;
    taken_before = before;
    include_stale = stale;
    include_asset = asset;
  })

-- `parse`; `none` is a ZodError.
unfoldable pub list_query : Coercions → Fields → Option ListQuery
unfolding limit_schema flag_schema media_type property assemble
list_query to fs =
    assemble (optional tag_schema (property "hashtag" fs)) (limit_schema to (property "limit" fs))
      (optional (λ v. as_string v >>= non_empty) (property "cursor" fs))
      (optional media_type (property "mediaType" fs))
      (optional to.to_date (property "takenAfter" fs))
      (optional to.to_date (property "takenBefore" fs)) (flag_schema (property "includeStale" fs))
      (flag_schema (property "includeAsset" fs))
