-- ===== src/Tests/Serving.antt =====
-- GET /hashtags at concrete inputs (src/api/controllers/HashtagController.ts).
use saral.Base.{
  suc, ◌≡◌, ◌≢◌, refl, true, false, none, some, Option, String, length, ◌==◌, if◌then◌else◌, All,
}
use Prim.Native.String
use text.Mathlib.Text.{◌==◌ as str_eq}
use text.Mathlib.TextEquality.{eq_iff}
use saral.Json.{Json, Fields, str, obj, end, field}
use saral.Store.Hashtags.{find_by_name, normalize_hashtag_name, strip_hashes}
use saral.Query.Listing.{join_rows}
use saral.Query.Paging.{full_listing}
use saral.Asset.Storage.{got}
use saral.Http.Cursor.{CursorText, IsCodable, encode_cursor, is_uuid}
use saral.Http.Request.{ListQuery, list_query}
use saral.Http.Listing.{Api, filters_of, items_of, is_tracked}
use saral.Http.Following.{follow, follow-full_listing}
use saral.Http.Showing.{IsServable}
use saral.Tests.Reading.{three, distinct}

abbrev uuid_of_digit : String → String
uuid_of_digit digit = String.◌++◌ "01234567-89ab-cdef-0123-45678901234" digit

abbrev payload : (taken_at id : String) → Json
payload taken_at id = obj (field "takenAt" (str taken_at) (field "id" (str id) end))

abbrev parse_pair : String → Option Json
parse_pair String.[] = none
parse_pair (String.◌∷◌ c id) = some (payload (String.◌∷◌ c "") id)

abbrev write_pair : Json → String
write_pair (obj (field j (str taken_at) (field k (str id) end))) = String.◌++◌ taken_at id
write_pair v = ""

-- A runtime that writes two dates and three uuids, and JSON of one form.
abbrev runtime : CursorText
runtime = record {
  to_base64url = λ s. s;
  from_base64url = λ s. s;
  parse = parse_pair;
  stringify = write_pair;
  date_of = λ s. if str_eq s "a" then some 100 else if str_eq s "b" then some 300 else none;
  to_iso = λ t. if t == 100 then "a" else "b";
  uuid_value = λ s.
      if str_eq s (uuid_of_digit "1") then 1 else if str_eq s (uuid_of_digit "2") then 2 else 3;
  uuid_text = λ id. uuid_of_digit (if id == 1 then "1" else if id == 2 then "2" else "3");
}

abbrev api : Api
api = record {
  text = runtime;
  coercions = record { to_integer = λ v. some 2; to_date = λ v. none };
  trim = λ s. s;
  to_lower_case = λ s. s;
  get_locator = λ k. got k;
}

-- `?hashtag=matcha&limit=2`.
abbrev query : Fields
query = field "hashtag" (str "matcha") (field "limit" (str "2") end)

abbrev parsed : ListQuery
parsed = record {
  hashtag = some "matcha";
  limit = 2;
  cursor = none;
  media_type = none;
  taken_after = none;
  taken_before = none;
  include_stale = true;
  include_asset = true;
}

has_text : (s : String) → str_eq s "" ≡ false → s ≢ ""
has_text s e h = let same = (eq_iff s "").1 h in cc

first-IsCodable : IsCodable runtime (100, 1)
unfolding encode_cursor is_uuid
first-IsCodable = record {
  base64 = refl;
  json = refl;
  date = refl;
  form = refl;
  uuid = refl;
  some_text = has_text _ refl;
}

second-IsCodable : IsCodable runtime (300, 2)
unfolding encode_cursor is_uuid
second-IsCodable = record {
  base64 = refl;
  json = refl;
  date = refl;
  form = refl;
  uuid = refl;
  some_text = has_text _ refl;
}

third-IsCodable : IsCodable runtime (100, 3)
unfolding encode_cursor is_uuid
third-IsCodable = record {
  base64 = refl;
  json = refl;
  date = refl;
  form = refl;
  uuid = refl;
  some_text = has_text _ refl;
}

servable : All (IsServable api) (join_rows three three.media_posts)
unfolding join_rows
servable = (
  (first-IsCodable, λ k e. cc),
  ((second-IsCodable, λ k e. cc), ((third-IsCodable, λ k e. cc), tt)),
)

read_query : list_query api.coercions query ≡ some parsed
unfolding list_query
read_query = refl

matcha_tracked : is_tracked api parsed.hashtag three ≡ true
unfolding is_tracked find_by_name normalize_hashtag_name strip_hashes
matcha_tracked = refl

follow-full_listing_example :
    let rows = full_listing api.to_lower_case three (filters_of parsed none) in
    items_of api true rows ≡ got (follow (suc (length rows)) api query three)
follow-full_listing_example =
    follow-full_listing api three query parsed read_query refl matcha_tracked distinct servable
