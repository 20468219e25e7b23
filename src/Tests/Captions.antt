-- ===== src/Tests/Captions.antt =====
-- The parser of captions and of timestamps at concrete inputs (src/api/services/captionParser.ts,
-- src/lib/meta/types.ts).
use saral.Base.{◌≡◌, refl, some, [], ◌∷◌, String, All}
use saral.Caption.Parser.{
  in_handle, trim_dots, normalize, add_hashtags, add_mentions, parse_caption_entities,
  parse_caption_arrays,
}
use saral.Caption.Entities.{IsUnique, IsClean, parse_caption_entities-IsUnique}
use saral.Store.Assets.{slice_from_start}
use saral.Meta.Timestamp.{normalize_zone}

abbrev caption : String
caption = "new #matcha #1 by @bob. and @ann #latte#matcha"

abbrev as_is : String → String
as_is s = s

-- A repeated tag, a number and the full stop behind a name are left out.
arrays :
    parse_caption_arrays in_handle as_is (some caption)
    ≡ ("matcha" ∷ "latte" ∷ [], "bob" ∷ "ann" ∷ [])
unfolding parse_caption_arrays add_mentions add_hashtags normalize trim_dots slice_from_start
arrays = refl

zone : normalize_zone "2026-01-02T03:04:05+0000" ≡ "2026-01-02T03:04:05+00:00"
unfolding normalize_zone
zone = refl

parse_caption_entities-IsUnique_example :
    let entities = parse_caption_entities in_handle as_is (some caption) in
    IsUnique entities × All IsClean entities
parse_caption_entities-IsUnique_example =
    parse_caption_entities-IsUnique in_handle as_is (some caption)
