-- ===== src/Caption/Entities.antt =====
-- The entities that src/api/services/captionParser.ts extracts from a caption.
use saral.Base.{
  ℕ, ◌+◌, ◌-◌, ◌≤◌, ◌≡◌, refl, ◌⊎◌, inl, inr, Bool, true, false, ◌||◌, not, Option, none, some,
  List, [], ◌∷◌, ◌++◌, String, arith, leb, if◌then◌else◌, All, All-append, Bool-cases, eq_iff,
  leb→le,
}
use Prim.Native.Char.{Char, code}
use saral.Meta.Client.Paginate.{truthy}
use saral.Store.Assets.{slice_from_start}
use saral.Caption.Parser.{
  hashtag, mention, CaptionEntity, match_all, in_handle, is_numeric, trim_dots, same_entity, seen,
  add_new, normalize, add_hashtags, add_mentions, caption_text, parse_caption_entities,
}

-- No two entities of one type with one value.
abbrev pub IsUnique : List CaptionEntity → Type 0
IsUnique [] = Unit
IsUnique (e ∷ es) = (seen e es ≡ false) × IsUnique es

-- The length in UTF-16 units.
unfoldable pub units : String → ℕ
units String.[] = 0
units (String.◌∷◌ c s) = (if leb (code c) 65535 then 1 else 2) + units s

-- The value is not empty, is not a number of a hashtag, and fits the column.
abbrev pub IsClean : CaptionEntity → Type 0
IsClean e =
    (truthy (some e.value) ≡ true)
    × ((e.type ≡ mention) ⊎ (is_numeric e.value ≡ false))
    × (units e.value ≤ 255)

units-slice : (n : ℕ) (s : String) → units (slice_from_start n s) ≤ n
unfolding units slice_from_start
units-slice n String.[] = omega arith
units-slice n (String.◌∷◌ c s) =
    let u : ℕ = if leb (code c) 65535 then 1 else 2 in
    elim (Bool-cases (leb u n)) [
      | inl fits ↦ rw fits (omega (arith, units-slice (n - u) s, leb→le u n fits))
      | inr full ↦ rw full (omega arith)
    ]

same_entity_comm : (a b : CaptionEntity) → same_entity a b ≡ same_entity b a
same_entity_comm a b = ground (arith, eq_iff a.value b.value, eq_iff b.value a.value)

seen-append :
    (x e : CaptionEntity) (es : List CaptionEntity)
    → seen x (es ++ e ∷ []) ≡ (seen x es || same_entity x e)
seen-append x e [] = ground arith
seen-append x e (y ∷ ys) = ground (arith, seen-append x e ys)

append-IsUnique :
    (e : CaptionEntity) (es : List CaptionEntity)
    → seen e es ≡ false
    → IsUnique es
    → IsUnique (es ++ e ∷ [])
append-IsUnique e [] h u = (refl, tt)
append-IsUnique e (x ∷ xs) h (new, u) = (
  ground (arith, seen-append x e xs, same_entity_comm x e),
  append-IsUnique e xs (ground arith) u,
)

abbrev IsTidy : List CaptionEntity → Type 0
IsTidy es = IsUnique es × All IsClean es

add_new-IsTidy :
    (e : CaptionEntity) (es : List CaptionEntity) → IsClean e → IsTidy es → IsTidy (add_new e es)
add_new-IsTidy e es clean (u, all) = elim (Bool-cases (seen e es)) [
  | inl h ↦ rw h (u, all)
  | inr h ↦ rw h (append-IsUnique e es h u, All-append IsClean es (e ∷ []) all (clean, tt))
]

module _ (in_word : Char → Bool) (to_lower_case : String → String) where
  add_hashtags-IsTidy :
      (captured : List String) (es : List CaptionEntity)
      → IsTidy es
      → IsTidy (add_hashtags in_word to_lower_case captured es)
  unfolding add_hashtags normalize
  add_hashtags-IsTidy [] es h = h
  add_hashtags-IsTidy (c ∷ cs) es h =
      let value = slice_from_start 255 (to_lower_case c) in
      elim (Bool-cases (not (truthy (some value)) || is_numeric value)) [
        | inl skip ↦ rw (skip, add_hashtags) (add_hashtags-IsTidy cs es h)
        | inr kept ↦
            rw (kept, add_hashtags)
              (add_hashtags-IsTidy cs _ (
                add_new-IsTidy (record { type = hashtag; value = value }) es
                  (ground arith, inr (ground arith), units-slice 255 (to_lower_case c)) h))
      ]

  add_mentions-IsTidy :
      (captured : List String) (es : List CaptionEntity)
      → IsTidy es
      → IsTidy (add_mentions in_word to_lower_case captured es)
  unfolding add_mentions normalize
  add_mentions-IsTidy [] es h = h
  add_mentions-IsTidy (c ∷ cs) es h =
      let value = slice_from_start 255 (to_lower_case (trim_dots c)) in
      elim (Bool-cases (not (truthy (some value)))) [
        | inl skip ↦ rw (skip, add_mentions) (add_mentions-IsTidy cs es h)
        | inr kept ↦
            rw (kept, add_mentions)
              (add_mentions-IsTidy cs _ (
                add_new-IsTidy (record { type = mention; value = value }) es
                  (ground arith, inl refl, units-slice 255 (to_lower_case (trim_dots c))) h))
      ]

  -- Whatever the caption, its entities are distinct in type and value; none is empty, no hashtag
  -- is a mere number, and each value fits a column of 255 units.
  pub parse_caption_entities-IsUnique :
      (caption : Option String)
      → let entities = parse_caption_entities in_word to_lower_case caption in
        IsUnique entities × All IsClean entities
  unfolding parse_caption_entities
  parse_caption_entities-IsUnique caption =
      let s = caption_text in_word to_lower_case caption in
      add_mentions-IsTidy (match_all 64 in_handle (some 30) none s) _
        (add_hashtags-IsTidy (match_all 35 in_word none none s) [] (tt, tt))
