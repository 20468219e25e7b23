-- ===== src/Meta/Timestamp.antt =====
-- parseMetaTimestamp of src/lib/meta/types.ts. The Date constructor is an argument: `none` is an
-- invalid date.
use saral.Base.{ℕ, Bool, false, ◌&&◌, ◌||◌, Option, String, leb, ◌==◌, if◌then◌else◌}
use Prim.Native.Char.{Char, code}
use Prim.Native.String

abbrev pub is_digit : Char → Bool
is_digit c = leb 48 (code c) && leb (code c) 57

abbrev pub is_sign : Char → Bool
is_sign c = code c == 43 || code c == 45

-- `([+-]\d{2})(\d{2})$` at this place.
abbrev pub is_zone : Char → String → Bool
is_zone sign (String.◌∷◌ a (String.◌∷◌ b (String.◌∷◌ c (String.◌∷◌ d String.[])))) =
    is_sign sign && is_digit a && is_digit b && is_digit c && is_digit d
is_zone sign s = false

-- The colon between the hours and the minutes.
abbrev pub with_colon : String → String
with_colon (String.◌∷◌ a (String.◌∷◌ b s)) = String.◌∷◌ a (String.◌∷◌ b (String.◌++◌ ":" s))
with_colon s = s

-- `raw.replace(/([+-]\d{2})(\d{2})$/, '$1:$2')`.
unfoldable pub normalize_zone : String → String
normalize_zone String.[] = String.[]
normalize_zone (String.◌∷◌ c s) =
    let rest = normalize_zone s in
    if is_zone c s then String.◌∷◌ c (with_colon s) else String.◌∷◌ c rest

unfoldable pub parse_meta_timestamp : (parse_date : String → Option ℕ) → String → Option ℕ
parse_meta_timestamp parse_date raw = parse_date (normalize_zone raw)
