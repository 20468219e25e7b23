-- ===== src/Disk/Paths.antt =====
-- LocalDiskStorage.resolve of src/adapters/local/LocalDiskStorage.ts, with the calls of node:path
-- that it makes. A path is the list of the texts between its slashes; one at its end, which has no
-- text behind it, is dropped. A path that is being normalised is a stack, its last text on top. The
-- root is absolute and normal, as path.resolve gives it.
use saral.Base.{
  Bool, false, not, ◌&&◌, ◌||◌, Option, none, some, List, [], ◌∷◌, String, ◌==◌, if◌then◌else◌,
}
use Prim.Native.Char.{Char, code}
use mathlib.Core.List.{reverse}
use text.Mathlib.Text.{◌==◌ as str_eq}

-- `s.split('/')`.
abbrev pub with_char : Char → List String → List String
with_char c [] = String.◌∷◌ c "" ∷ []
with_char c (s ∷ ss) = String.◌∷◌ c s ∷ ss

unfoldable pub split_slash : String → List String
split_slash String.[] = "" ∷ []
split_slash (String.◌∷◌ c s) =
    let rest = split_slash s in if code c == 47 then "" ∷ rest else with_char c rest

-- A segment that names an entry of a directory.
unfoldable pub is_plain : String → Bool
is_plain s = not (str_eq s "") && not (str_eq s ".") && not (str_eq s "..")

-- A `..` above a relative path, and above an absolute one.
unfoldable pub up : List String → List String
up [] = ".." ∷ []
up (s ∷ ss) = if str_eq s ".." then ".." ∷ s ∷ ss else ss

unfoldable pub up_from_root : List String → List String
up_from_root [] = []
up_from_root (s ∷ ss) = ss

unfoldable pub push : (above : List String → List String) → List String → String → List String
unfolding is_plain
push above stack s = if is_plain s then s ∷ stack else if str_eq s ".." then above stack else stack

unfoldable pub push_all :
    (above : List String → List String) → List String → List String → List String
unfolding push
push_all above stack [] = stack
push_all above stack (s ∷ ss) = push_all above (push above stack s) ss

-- The segments of `path.posix.normalize(key)`, for a relative key; none of them stand for `.`.
abbrev pub normalize : List String → List String
normalize segments = reverse (push_all up [] segments)

abbrev pub is_slash_first : String → Bool
is_slash_first String.[] = false
is_slash_first (String.◌∷◌ c s) = code c == 47

-- `normalized.startsWith('..')`, by its first segment.
abbrev pub has_dots : String → Bool
has_dots (String.◌∷◌ c (String.◌∷◌ d s)) = code c == 46 && code d == 46
has_dots s = false

abbrev pub starts_with_dots : List String → Bool
starts_with_dots [] = false
starts_with_dots (s ∷ ss) = has_dots s

-- `path.join(root, ...normalized.split('/'))`.
abbrev pub join_root : List String → List String → List String
join_root root segments = reverse (push_all up_from_root (reverse root) segments)

-- `none` is the exception 'unsafe storage key'. A key that starts with a slash stays absolute when
-- it is normalised.
unfoldable pub resolve : (root : List String) → String → Option (List String)
unfolding split_slash push_all up up_from_root
resolve root key =
    let normalized = normalize (split_slash key) in
    if starts_with_dots normalized || is_slash_first key
    then none
    else some (join_root root normalized)
