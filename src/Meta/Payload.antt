-- ===== src/Meta/Payload.antt =====
-- A media object as the raw layer holds it: the jsonb of `data_points.payload`, which recordPage
-- writes from the validated item (src/api/repositories/DataPointRepository.ts), and metaMediaSchema
-- (src/lib/meta/types.ts) on it again.
use saral.Base.{Bool, true, false, Option, none, some, String, ◌≡◌, refl, ◌∙◌, eq_refl}
use text.Mathlib.Text.{◌==◌ as str_eq}
use saral.Json.{Json, Fields, num, str, obj, end, field, property}
use saral.Meta.Schema.{
  MetaMedia, MediaType, image, video, carousel_album, media_type, meta_media, non_empty, as_string,
  as_number, optional, url,
}

abbrev pub type_name : MediaType → String
type_name image = "IMAGE"
type_name video = "VIDEO"
type_name carousel_album = "CAROUSEL_ALBUM"

-- `undefined` is not written.
abbrev pub optional_field {ℓ} : {A : Type ℓ} → String → (A → Json) → Option A → Fields → Fields
optional_field k f none fs = fs
optional_field k f (some a) fs = field k (f a) fs

unfoldable pub media_json : MetaMedia → Json
media_json m = obj (
    field "id" (str m.id) (
      field "media_type" (str (type_name m.media_type)) (
        field "timestamp" (str m.timestamp) (
          field "permalink" (str m.permalink) (
            optional_field "media_url" str m.media_url (
              optional_field "caption" str m.caption (
                optional_field "like_count" num m.like_count
                  (optional_field "comments_count" num m.comments_count end))))))))

abbrev pub AllUrl : (String → Bool) → Option String → Type 0
AllUrl is_url none = Unit
AllUrl is_url (some s) = is_url s ≡ true

-- What metaMediaSchema asks of a media object.
pub record IsMedia (is_url : String → Bool) (m : MetaMedia) : Type 0 where
  pub has_id : non_empty m.id ≡ some m.id
  pub has_timestamp : non_empty m.timestamp ≡ some m.timestamp
  pub has_permalink : is_url m.permalink ≡ true
  pub url_fits : AllUrl is_url m.media_url

media_type-type_name : (t : MediaType) → media_type (str (type_name t)) ≡ some t
unfolding media_type
media_type-type_name image = refl
media_type-type_name video = refl
media_type-type_name carousel_album = refl

-- What a lookup finds in a field that may be left out.
abbrev found {ℓ} : {A : Type ℓ} → (A → Json) → Option A → Option Json
found f none = none
found f (some a) = some (f a)

module _ {ℓ} {A : Type ℓ} (f : A → Json) where
  property-other :
      (k j : String) (o : Option A) (fs : Fields)
      → str_eq j k ≡ false
      → property k (optional_field j f o fs) ≡ property k fs
  unfolding property
  property-other k j none fs ne = refl
  property-other k j (some a) fs ne = rw (ne, property) refl

  property-same :
      (k : String) (o : Option A) (fs : Fields)
      → property k fs ≡ none
      → property k (optional_field k f o fs) ≡ found f o
  unfolding property
  property-same k none fs absent = absent
  property-same k (some a) fs absent = rw (eq_refl k, property) refl

  optional-found :
      (p : Json → Option A) (o : Option A)
      → ((a : A) → o ≡ some a → p (f a) ≡ some a)
      → optional p (found f o) ≡ some o
  optional-found p none ok = refl
  optional-found p (some a) ok = rw (ok a refl) refl

-- The optional fields of a media object.
abbrev optionals : MetaMedia → Fields
optionals m = optional_field "media_url" str m.media_url (
    optional_field "caption" str m.caption (
      optional_field "like_count" num m.like_count
        (optional_field "comments_count" num m.comments_count end)))

property-optionals :
    (m : MetaMedia)
    → (property "media_url" (optionals m) ≡ found str m.media_url)
      × (property "caption" (optionals m) ≡ found str m.caption)
      × (property "like_count" (optionals m) ≡ found num m.like_count)
      × (property "comments_count" (optionals m) ≡ found num m.comments_count)
unfolding property
property-optionals m =
    let n = optional_field "comments_count" num m.comments_count end in
    let l = optional_field "like_count" num m.like_count n in
    let c = optional_field "caption" str m.caption l in
    (
      property-same str "media_url" m.media_url c (
          property-other str "media_url" "caption" m.caption l refl
          ∙ property-other num "media_url" "like_count" m.like_count n refl
          ∙ property-other num "media_url" "comments_count" m.comments_count end refl),
      property-other str "caption" "media_url" m.media_url c refl
          ∙ property-same str "caption" m.caption l (
              property-other num "caption" "like_count" m.like_count n refl
              ∙ property-other num "caption" "comments_count" m.comments_count end refl),
      property-other str "like_count" "media_url" m.media_url c refl
          ∙ property-other str "like_count" "caption" m.caption l refl
          ∙ property-same num "like_count" m.like_count n
              (property-other num "like_count" "comments_count" m.comments_count end refl),
      property-other str "comments_count" "media_url" m.media_url c refl
          ∙ property-other str "comments_count" "caption" m.caption l refl
          ∙ property-other num "comments_count" "like_count" m.like_count n refl
          ∙ property-same num "comments_count" m.comments_count end refl,
    )

url_read :
    (is_url : String → Bool) (o : Option String)
    → AllUrl is_url o
    → optional (url is_url) (found str o) ≡ some o
url_read is_url none ok = refl
url_read is_url (some s) ok = rw ok refl

-- A media object that the schema accepts is read back from its JSON as it is.
pub meta_media-media_json :
    (is_url : String → Bool) (m : MetaMedia)
    → IsMedia is_url m
    → meta_media is_url (media_json m) ≡ some m
unfolding meta_media media_json property
meta_media-media_json is_url m ok =
    let (u, c, l, n) = property-optionals m in
    rw
      (
        ok.has_id,
        media_type-type_name m.media_type,
        ok.has_timestamp,
        ok.has_permalink,
        u,
        url_read is_url m.media_url ok.url_fits,
        c,
        optional-found str as_string m.caption (λ a e. refl),
        l,
        optional-found num as_number m.like_count (λ a e. refl),
        n,
        optional-found num as_number m.comments_count (λ a e. refl),
      )
      refl
