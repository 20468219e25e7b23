-- ===== src/Asset/Storage.antt =====
-- src/ports/Storage.ts: the content-addressed key, and the port as an interface over a world `W`.
use saral.Base.{
  ℕ, zero, suc, Bool, Option, none, some, List, [], ◌∷◌, String, ◌==◌, if◌then◌else◌, ◌≡◌, refl,
  ◌⊎◌, inl, inr,
}
use Prim.Native.Char.{code}
use Prim.Native.String
use text.Mathlib.Text.{◌==◌ as str_eq}
use saral.Store.Assets.{slice_from_start}
use saral.Meta.Client.Paginate.{truthy}

-- A call that may throw.
pub data Attempt (A : Type 0) (E : Type 0) : Type 0 where
  got : A → Attempt A E
  threw : E → Attempt A E

pub Attempt-cases :
    {A E : Type 0} (r : Attempt A E) → ((e : E) × (r ≡ threw e)) ⊎ ((a : A) × (r ≡ got a))
Attempt-cases (threw e) = inl (e, refl)
Attempt-cases (got a) = inr (a, refl)

pub record StoredObject : Type 0 where
  pub key : String
  pub provider : String
  pub size_bytes : ℕ
  pub content_type : Option String

pub record PutOptions : Type 0 where
  pub content_type : Option String
  pub content_length : ℕ

pub record Storage (W : Type 0) : Type 0 where
  pub provider : String
  pub exists : String → W → W × Attempt Bool String
  pub put_stream : String → List ℕ → PutOptions → W → W × Attempt StoredObject String

-- `s.slice(n)`, for a text of characters of one UTF-16 unit, as the digits of a hash are.
unfoldable pub slice_to_end : ℕ → String → String
slice_to_end zero s = s
slice_to_end (suc n) String.[] = String.[]
slice_to_end (suc n) (String.◌∷◌ c s) = slice_to_end n s

-- `extension.startsWith('.') ? extension : `.${extension}``.
abbrev pub dotted : String → String
dotted String.[] = "."
dotted (String.◌∷◌ c s) = if code c == 46 then String.◌∷◌ c s else String.◌++◌ "." (String.◌∷◌ c s)

abbrev pub join : List String → String
join [] = ""
join (s ∷ ss) = String.◌++◌ s (join ss)

unfoldable pub content_addressed_key : (sha256 extension : String) → String
unfolding slice_from_start slice_to_end
content_addressed_key sha256 extension = join (
    "media/"
    ∷ slice_from_start 2 sha256
    ∷ "/"
    ∷ slice_from_start 2 (slice_to_end 2 sha256)
    ∷ "/"
    ∷ sha256
    ∷ dotted extension
    ∷ [])

abbrev pub extensions : List (String × String)
extensions =
    ("image/jpeg", ".jpg")
    ∷ ("image/jpg", ".jpg")
    ∷ ("image/png", ".png")
    ∷ ("image/webp", ".webp")
    ∷ ("image/heic", ".heic")
    ∷ ("image/gif", ".gif")
    ∷ ("video/mp4", ".mp4")
    ∷ ("video/quicktime", ".mov")
    ∷ ("video/webm", ".webm")
    ∷ []

abbrev pub look_up : String → List (String × String) → Option String
look_up k [] = none
look_up k ((j, v) ∷ kvs) = if str_eq j k then some v else look_up k kvs

abbrev pub or_bin : Option String → String
or_bin none = ".bin"
or_bin (some e) = e

-- `normalize` is `contentType.split(';')[0]?.trim().toLowerCase() ?? ''`.
unfoldable pub extension_for_content_type : (normalize : String → String) → Option String → String
extension_for_content_type normalize none = ".bin"
extension_for_content_type normalize (some t) =
    if truthy (some t) then or_bin (look_up (normalize t) extensions) else ".bin"
