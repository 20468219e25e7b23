-- ===== src/Http/Cursor.antt =====
-- src/api/controllers/responses/cursor.ts. A date is its milliseconds, and a row's id the number
-- that its uuid spells, as in the tables.
use saral.Base.{
  ℕ, zero, suc, ◌≡◌, ◌≢◌, refl, ap, ◌∙◌, Bool, true, false, ◌&&◌, ◌||◌, Option, none, some, String,
  leb, ◌==◌, if◌then◌else◌,
}
use Prim.Native.Char.{code}
use saral.Json.{Json, str, obj, end, field, property, property_of}

-- What the codec uses of the runtime: base64url, JSON, the Date constructor with toISOString, and
-- the reading and the text of a uuid.
pub record CursorText : Type 0 where
  pub to_base64url : String → String
  pub from_base64url : String → String
  pub parse : String → Option Json
  pub stringify : Json → String
  pub date_of : String → Option ℕ
  pub to_iso : ℕ → String
  pub uuid_value : String → ℕ
  pub uuid_text : ℕ → String

-- `[0-9a-f]` without regard to case.
abbrev pub is_hex : ℕ → Bool
is_hex c = leb 48 c && leb c 57 || leb 65 c && leb c 70 || leb 97 c && leb c 102

-- The text after `n` characters that are hexadecimal digits.
unfoldable pub after_hex : ℕ → String → Option String
after_hex zero s = some s
after_hex (suc n) String.[] = none
after_hex (suc n) (String.◌∷◌ c s) = if is_hex (code c) then after_hex n s else none

unfoldable pub after_dash : Option String → Option String
after_dash none = none
after_dash (some String.[]) = none
after_dash (some (String.◌∷◌ c s)) = if code c == 45 then some s else none

abbrev pub then_hex : ℕ → Option String → Option String
then_hex n none = none
then_hex n (some s) = after_hex n s

abbrev pub is_end : Option String → Bool
is_end (some String.[]) = true
is_end (some (String.◌∷◌ c s)) = false
is_end none = false

-- The regular expression: groups of 8, 4, 4, 4 and 12 digits.
unfoldable pub is_uuid : String → Bool
unfolding after_hex after_dash
is_uuid s = is_end (
    then_hex 12 (
      after_dash (
        then_hex 4
          (after_dash (then_hex 4 (after_dash (then_hex 4 (after_dash (after_hex 8 s)))))))))

-- `bad` has the message of the BadRequestError.
pub data Decoded : Type 0 where
  cursor : ℕ × ℕ → Decoded
  bad : String → Decoded

module _ (t : CursorText) where
  abbrev pub cursor_payload : ℕ × ℕ → Json
  cursor_payload (taken_at, id) =
      obj (field "takenAt" (str (t.to_iso taken_at)) (field "id" (str (t.uuid_text id)) end))

  unfoldable pub encode_cursor : ℕ × ℕ → String
  encode_cursor key = t.to_base64url (t.stringify (cursor_payload key))

  -- The last two tests.
  unfoldable pub check_payload : (taken_at id : String) → Decoded
  unfolding is_uuid
  check_payload taken_at id = elim (t.date_of taken_at) [
    | none ↦ bad "cursor contains an invalid takenAt timestamp"
    | some time ↦
        if is_uuid id then cursor (time, t.uuid_value id) else bad "cursor contains an invalid id"
  ]

  unfoldable pub read_payload : (taken_at id : Option Json) → Decoded
  unfolding check_payload
  read_payload (some (str taken_at)) (some (str id)) = check_payload taken_at id
  read_payload _ _ = bad "cursor is missing takenAt or id"

  -- What follows the `try`.
  unfoldable pub read_value : Option Json → Decoded
  unfolding read_payload property property_of
  read_value none = bad "cursor is not valid base64url-encoded JSON"
  read_value (some v) = read_payload (property_of "takenAt" v) (property_of "id" v)

  unfoldable pub decode_cursor : String → Decoded
  unfolding read_value
  decode_cursor raw = read_value (t.parse (t.from_base64url raw))

  -- What the codec needs of the runtime at a key: each reading undoes the writing, the text of the
  -- uuid has its form, and no text is empty.
  pub record IsCodable (key : ℕ × ℕ) : Type 0 where
    pub base64 : t.from_base64url (encode_cursor key) ≡ t.stringify (cursor_payload key)
    pub json : t.parse (t.stringify (cursor_payload key)) ≡ some (cursor_payload key)
    pub date : t.date_of (t.to_iso key.0) ≡ some key.0
    pub form : is_uuid (t.uuid_text key.1) ≡ true
    pub uuid : t.uuid_value (t.uuid_text key.1) ≡ key.1
    pub some_text : encode_cursor key ≢ ""

  -- A cursor that was handed out is read back as the sort key that it stands for, where the
  -- runtime's own writings of that key are read back.
  pub decode_cursor-encode_cursor :
      (key : ℕ × ℕ) → IsCodable key → decode_cursor (encode_cursor key) ≡ cursor key
  unfolding decode_cursor
  decode_cursor-encode_cursor (taken_at, id) k =
      ap (read_value) (ap t.parse k.base64 ∙ k.json)
      ∙ rw (k.date, check_payload) (rw (k.form, k.uuid) refl)
