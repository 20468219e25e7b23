-- ===== src/Query/Listing.antt =====
-- src/api/repositories/HashtagMediaQueryRepository.ts: the keyset query over media_posts, and the
-- cursor that src/api/controllers/HashtagController.ts hands out. A UUID is a number here, compared
-- as Postgres compares the column.
use saral.Base.{
  ℕ, zero, suc, ◌++◌, Bool, true, false, ◌&&◌, ◌||◌, not, Option, none, some, List, [], ◌∷◌, String,
  ltb, leb, ◌==◌, if◌then◌else◌, keep, take, length,
}
use text.Mathlib.Text.{◌==◌ as str_eq}
use saral.Meta.Schema.{MediaType, image, video, carousel_album}
use saral.Meta.Client.Paginate.{truthy}
use saral.Store.Tables.{Database, Hashtag, MediaPost, MediaAsset}
use saral.Store.Hashtags.{find_hashtag, strip_hashes}
use saral.Store.Assets.{find_by_media_id}

pub record ListMediaFilters : Type 0 where
  pub hashtag : Option String
  pub media_type : Option MediaType
  pub taken_after : Option ℕ
  pub taken_before : Option ℕ
  pub include_stale : Bool
  pub limit : ℕ
  pub cursor : Option (ℕ × ℕ)

-- A row of the join; the statement selects columns of its three rows.
pub record ListMediaRow : Type 0 where
  pub post : MediaPost
  pub tag : Hashtag
  pub asset : Option MediaAsset

-- INNER JOIN hashtags, LEFT JOIN media_assets.
unfoldable pub join_rows : Database → List MediaPost → List ListMediaRow
join_rows db [] = []
join_rows db (p ∷ ps) =
    let rest = join_rows db ps in
    elim (find_hashtag p.hashtag_id db) [
      | none ↦ rest
      | some h ↦ record { post = p; tag = h; asset = find_by_media_id p.id db } ∷ rest
    ]

abbrev pub type_eq : MediaType → MediaType → Bool
type_eq image image = true
type_eq video video = true
type_eq carousel_album carousel_album = true
type_eq _ _ = false

abbrev pub or_empty : Option String → String
or_empty none = ""
or_empty (some s) = s

abbrev pub has_tag : (to_lower_case : String → String) → Option String → ListMediaRow → Bool
has_tag to_lower_case tag row =
    if truthy tag then str_eq row.tag.name (to_lower_case (strip_hashes (or_empty tag))) else true

abbrev pub has_type : Option MediaType → ListMediaRow → Bool
has_type none row = true
has_type (some t) row = type_eq row.post.media_type t

abbrev pub from_on : Option ℕ → ListMediaRow → Bool
from_on none row = true
from_on (some t) row = leb t row.post.taken_at

abbrev pub up_to : Option ℕ → ListMediaRow → Bool
up_to none row = true
up_to (some t) row = leb row.post.taken_at t

abbrev pub counted : (to_lower_case : String → String) → ListMediaFilters → ListMediaRow → Bool
counted to_lower_case f row =
    has_tag to_lower_case f.hashtag row
    && has_type f.media_type row
    && (f.include_stale || not row.post.is_stale)

abbrev pub selected : (to_lower_case : String → String) → ListMediaFilters → ListMediaRow → Bool
selected to_lower_case f row =
    counted to_lower_case f row && from_on f.taken_after row && up_to f.taken_before row

-- The sort key, and the order (taken_at DESC, id DESC).
abbrev pub key : ListMediaRow → ℕ × ℕ
key row = (row.post.taken_at, row.post.id)

abbrev pub precedes : ℕ × ℕ → ℕ × ℕ → Bool
precedes (t, i) (u, j) = ltb u t || u == t && ltb j i

abbrev pub past : Option (ℕ × ℕ) → ListMediaRow → Bool
past none row = true
past (some c) row = precedes c (key row)

unfoldable pub insert_row : ListMediaRow → List ListMediaRow → List ListMediaRow
insert_row r [] = r ∷ []
insert_row r (s ∷ ss) = if precedes (key s) (key r) then s ∷ insert_row r ss else r ∷ s ∷ ss

unfoldable pub order_rows : List ListMediaRow → List ListMediaRow
unfolding insert_row
order_rows [] = []
order_rows (r ∷ rs) = insert_row r (order_rows rs)

pub record MediaListing : Type 0 where
  pub rows : List ListMediaRow
  pub has_more : Bool

unfoldable pub list_media :
    (to_lower_case : String → String) → ListMediaFilters → Database → MediaListing
unfolding join_rows order_rows
list_media to_lower_case f db =
    let rows = take (suc f.limit) (
      order_rows (
        keep (λ r. selected to_lower_case f r && past f.cursor r) (join_rows db db.media_posts))) in
    let has_more = ltb f.limit (length rows) in
    record { rows = if has_more then take f.limit rows else rows; has_more = has_more }

unfoldable pub count_media : (to_lower_case : String → String) → ListMediaFilters → Database → ℕ
unfolding join_rows
count_media to_lower_case f db =
    length (keep (counted to_lower_case f) (join_rows db db.media_posts))

-- `rows[rows.length - 1]`.
abbrev pub last_row : List ListMediaRow → Option ListMediaRow
last_row [] = none
last_row (r ∷ []) = some r
last_row (r ∷ s ∷ ss) = last_row (s ∷ ss)

abbrev pub key_of : Option ListMediaRow → Option (ℕ × ℕ)
key_of none = none
key_of (some r) = some (key r)

-- The controller's `nextCursor`, before its encoding.
abbrev pub next_cursor : MediaListing → Option (ℕ × ℕ)
next_cursor l = if l.has_more then key_of (last_row l.rows) else none

-- A client that asks for pages until `nextCursor` is null, with fuel.
unfoldable pub read_pages :
    ℕ → (to_lower_case : String → String) → ListMediaFilters → Database → List ListMediaRow
read_pages zero to_lower_case f db = []
read_pages (suc fuel) to_lower_case f db =
    let page = list_media to_lower_case f db in
    let next = next_cursor page in
    let rest = read_pages fuel to_lower_case (record f { cursor = next }) db in
    elim next [ none ↦ page.rows | some c ↦ page.rows ++ rest ]
