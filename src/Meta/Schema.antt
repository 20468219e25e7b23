-- ===== src/Meta/Schema.antt =====
-- The Zod schemas of src/lib/meta/types.ts, as functions that give `none` where `parse` throws.
-- Zod's own check of a URL is an argument.
use saral.Base.{ℕ, Bool, Option, none, some, List, [], ◌∷◌, String, if◌then◌else◌}
use text.Mathlib.Text.{◌==◌ as str_eq}
use saral.Json.{Json, Items, num, str, arr, obj, nil, cons, property}

pub data MediaType : Type 0 where
  image video carousel_album : MediaType

pub record MetaMedia : Type 0 where
  pub id : String
  pub media_type : MediaType
  pub timestamp : String
  pub permalink : String
  pub media_url : Option String
  pub caption : Option String
  pub like_count : Option ℕ
  pub comments_count : Option ℕ

pub record MetaPaging : Type 0 where
  pub after : Option String
  pub next : Option String

pub record MetaMediaResponse : Type 0 where
  pub data_items : List MetaMedia
  pub paging : Option MetaPaging

pub record MetaErrorBody : Type 0 where
  pub message : String
  pub code : Option ℕ
  pub error_subcode : Option ℕ

infixl 5 ◌>>=◌
abbrev pub ◌>>=◌ {ℓ κ} : {A : Type ℓ} {B : Type κ} → Option A → (A → Option B) → Option B
none >>= k = none
some a >>= k = k a

abbrev pub as_string : Json → Option String
as_string (str s) = some s
as_string _ = none

abbrev pub as_number : Json → Option ℕ
as_number (num n) = some n
as_number _ = none

-- `.min(1)`.
abbrev pub non_empty : String → Option String
non_empty String.[] = none
non_empty s = some s

-- A field that has to be there.
abbrev pub required {ℓ} : {A : Type ℓ} → (Json → Option A) → Option Json → Option A
required p none = none
required p (some v) = p v

-- `.optional()`: `undefined`, or a value that passes; `null` does not.
abbrev pub optional {ℓ} : {A : Type ℓ} → (Json → Option A) → Option Json → Option (Option A)
optional p none = some none
optional p (some v) = p v >>= λ a. some (some a)

unfoldable pub media_type : Json → Option MediaType
media_type (str s) =
    if str_eq s "IMAGE"
    then some image
    else if str_eq s "VIDEO"
    then some video
    else if str_eq s "CAROUSEL_ALBUM"
    then some carousel_album
    else none
media_type _ = none

abbrev pub each_of {ℓ} : {A : Type ℓ} → (Json → Option A) → Items → Option (List A)
each_of p nil = some []
each_of p (cons v vs) = p v >>= λ a. each_of p vs >>= λ rest. some (a ∷ rest)

-- `z.array`.
abbrev pub array {ℓ} : {A : Type ℓ} → (Json → Option A) → Json → Option (List A)
array p (arr vs) = each_of p vs
array p _ = none

module _ (is_url : String → Bool) where
  abbrev pub url : Json → Option String
  url v = as_string v >>= λ s. if is_url s then some s else none

  unfoldable pub meta_media : Json → Option MetaMedia
  unfolding media_type property
  meta_media (obj fs) = do
    id ← required (λ v. as_string v >>= non_empty) (property "id" fs)
    kind ← required media_type (property "media_type" fs)
    timestamp ← required (λ v. as_string v >>= non_empty) (property "timestamp" fs)
    permalink ← required url (property "permalink" fs)
    media_url ← optional url (property "media_url" fs)
    caption ← optional as_string (property "caption" fs)
    likes ← optional as_number (property "like_count" fs)
    comments ← optional as_number (property "comments_count" fs)
    some (record {
      id = id;
      media_type = kind;
      timestamp = timestamp;
      permalink = permalink;
      media_url = media_url;
      caption = caption;
      like_count = likes;
      comments_count = comments;
    })
  meta_media _ = none

  -- `cursors`: the `before` is checked, and only the `after` is kept.
  unfoldable pub meta_cursors : Json → Option (Option String)
  meta_cursors (obj fs) = do
    before ← optional as_string (property "before" fs)
    optional as_string (property "after" fs)
  meta_cursors _ = none

  abbrev pub flattened : Option (Option String) → Option String
  flattened none = none
  flattened (some o) = o

  unfoldable pub meta_paging : Json → Option MetaPaging
  unfolding meta_cursors property
  meta_paging (obj fs) = do
    cursors ← optional meta_cursors (property "cursors" fs)
    next ← optional url (property "next" fs)
    previous ← optional url (property "previous" fs)
    some (record { after = flattened cursors; next = next })
  meta_paging _ = none

  unfoldable pub meta_media_response : Json → Option MetaMediaResponse
  unfolding meta_media meta_paging property
  meta_media_response (obj fs) = do
    items ← required (λ v. array meta_media v) (property "data" fs)
    paging ← optional meta_paging (property "paging" fs)
    some (record { data_items = items; paging = paging })
  meta_media_response _ = none

abbrev hashtag_entry : Json → Option String
hashtag_entry (obj fs) = required (λ v. as_string v >>= non_empty) (property "id" fs)
hashtag_entry _ = none

-- The ids that a hashtag search returns.
unfoldable pub meta_hashtag_search_response : Json → Option (List String)
unfolding property
meta_hashtag_search_response (obj fs) = required (array hashtag_entry) (property "data" fs)
meta_hashtag_search_response _ = none

abbrev error_envelope : Json → Option MetaErrorBody
error_envelope (obj fs) = do
  message ← required as_string (property "message" fs)
  kind ← optional as_string (property "type" fs)
  code ← optional as_number (property "code" fs)
  subcode ← optional as_number (property "error_subcode" fs)
  trace ← optional as_string (property "fbtrace_id" fs)
  some (record { message = message; code = code; error_subcode = subcode })
error_envelope _ = none

unfoldable pub meta_error_response : Json → Option MetaErrorBody
unfolding property
meta_error_response (obj fs) = required error_envelope (property "error" fs)
meta_error_response _ = none

-- MEDIA_FIELDS, joined by commas.
abbrev pub media_fields : String
media_fields = "id,media_type,timestamp,permalink,media_url,caption,like_count,comments_count"
