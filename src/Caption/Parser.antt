-- ===== src/Caption/Parser.antt =====
-- src/api/services/captionParser.ts. The two patterns are scanned by hand: a match is a mark and the
-- longest run of the class behind it, and the search goes on behind the match. What the class
-- `[\p{L}\p{N}\p{M}_]` and `toLowerCase` do is the runtime's.
use saral.Base.{
  ℕ, Bool, true, false, ◌&&◌, ◌||◌, not, Option, none, some, List, [], ◌∷◌, ◌++◌, String, ltb, leb,
  ◌==◌, if◌then◌else◌, keep, map, length,
}
use Prim.Native.Char.{Char, code}
use text.Mathlib.Text.{◌==◌ as str_eq}
use saral.Meta.Client.Paginate.{truthy}
use saral.Store.Assets.{slice_from_start}

pub data EntityType : Type 0 where
  hashtag mention : EntityType

pub record CaptionEntity : Type 0 where
  pub type : EntityType
  pub value : String

-- `[A-Za-z0-9._]`.
abbrev pub in_handle : Char → Bool
in_handle c =
    leb 65 (code c) && leb (code c) 90
    || leb 97 (code c) && leb (code c) 122
    || leb 48 (code c) && leb (code c) 57
    || code c == 46
    || code c == 95

abbrev pub text_of : List Char → String
text_of [] = ""
text_of (c ∷ cs) = String.◌∷◌ c (text_of cs)

-- `if (!captured) continue;` can skip nothing, since a match has a character.
abbrev pub emit : List Char → List String → List String
emit [] rest = rest
emit run rest = text_of run ∷ rest

abbrev pub has_room : Option ℕ → List Char → Bool
has_room none run = true
has_room (some limit) run = ltb (length run) limit

-- The captured groups of `matchAll`. The state is the run behind the last mark.
unfoldable pub match_all :
    (mark : ℕ) (in_class : Char → Bool) (limit : Option ℕ)
    → Option (List Char)
    → String
    → List String
match_all mark in_class limit none String.[] = []
match_all mark in_class limit (some run) String.[] = emit run []
match_all mark in_class limit none (String.◌∷◌ c s) =
    let from_mark = match_all mark in_class limit (some []) s in
    let outside = match_all mark in_class limit none s in
    if code c == mark then from_mark else outside
match_all mark in_class limit (some run) (String.◌∷◌ c s) =
    let longer = match_all mark in_class limit (some (run ++ c ∷ [])) s in
    let from_mark = match_all mark in_class limit (some []) s in
    let outside = match_all mark in_class limit none s in
    if in_class c && has_room limit run
    then longer
    else emit run (if code c == mark then from_mark else outside)

-- `/^\d+$/`, of a text that is not empty.
abbrev pub is_numeric : String → Bool
is_numeric String.[] = true
is_numeric (String.◌∷◌ c s) = leb 48 (code c) && leb (code c) 57 && is_numeric s

-- `.replace(/\.+$/, '')`.
abbrev pub kept_before : Char → String → String
kept_before c String.[] = if code c == 46 then String.[] else String.◌∷◌ c String.[]
kept_before c s = String.◌∷◌ c s

unfoldable pub trim_dots : String → String
trim_dots String.[] = String.[]
trim_dots (String.◌∷◌ c s) = kept_before c (trim_dots s)

abbrev pub type_eq : EntityType → EntityType → Bool
type_eq hashtag hashtag = true
type_eq mention mention = true
type_eq _ _ = false

abbrev pub same_entity : CaptionEntity → CaptionEntity → Bool
same_entity a b = type_eq a.type b.type && str_eq a.value b.value

-- The set of the keys that were seen.
abbrev pub seen : CaptionEntity → List CaptionEntity → Bool
seen e [] = false
seen e (x ∷ xs) = same_entity e x || seen e xs

abbrev pub add_new : CaptionEntity → List CaptionEntity → List CaptionEntity
add_new e es = if seen e es then es else es ++ e ∷ []

module _ (in_word : Char → Bool) (to_lower_case : String → String) where
  unfoldable pub normalize : String → String
  normalize raw = slice_from_start 255 (to_lower_case raw)

  unfoldable pub add_hashtags : List String → List CaptionEntity → List CaptionEntity
  add_hashtags [] es = es
  add_hashtags (captured ∷ rest) es =
      let value = normalize captured in
      let skipped = not (truthy (some value)) || is_numeric value in
      add_hashtags rest
        (if skipped then es else add_new (record { type = hashtag; value = value }) es)

  unfoldable pub add_mentions : List String → List CaptionEntity → List CaptionEntity
  add_mentions [] es = es
  add_mentions (captured ∷ rest) es =
      let value = normalize (trim_dots captured) in
      let skipped = not (truthy (some value)) in
      add_mentions rest
        (if skipped then es else add_new (record { type = mention; value = value }) es)

  abbrev pub caption_text : Option String → String
  caption_text none = ""
  caption_text (some s) = s

  -- A caption that is not there and an empty one have no match.
  unfoldable pub parse_caption_entities : Option String → List CaptionEntity
  unfolding match_all
  parse_caption_entities caption =
      let s = caption_text caption in
      add_mentions (match_all 64 in_handle (some 30) none s)
        (add_hashtags (match_all 35 in_word none none s) [])

  abbrev pub is_of : EntityType → CaptionEntity → Bool
  is_of t e = type_eq e.type t

  unfoldable pub parse_caption_arrays : Option String → List String × List String
  unfolding parse_caption_entities
  parse_caption_arrays caption =
      let entities = parse_caption_entities caption in
      (
        map (λ e. e.value) (keep (is_of hashtag) entities),
        map (λ e. e.value) (keep (is_of mention) entities),
      )
