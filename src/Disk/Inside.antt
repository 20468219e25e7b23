-- ===== src/Disk/Inside.antt =====
-- No key leads LocalDiskStorage (src/adapters/local/LocalDiskStorage.ts) out of its root.
use saral.Base.{
  ◌≡◌, refl, sym, ap, ◌∙◌, true, false, none, some, List, [], ◌∷◌, ◌++◌, String, arith, All,
  All-append, ◌⊎◌, Bool-cases, inl, inr, append_assoc,
}
use mathlib.Core.List.{reverse, reverse-append, reverse-cons, reverse-reverse}
use text.Mathlib.Text.{◌==◌ as str_eq}
use text.Mathlib.TextEquality.{eq_iff}
use saral.Disk.Paths.{
  is_plain, up, up_from_root, push, push_all, has_dots, starts_with_dots, is_slash_first, join_root,
  resolve, split_slash,
}

abbrev pub IsPlain : String → Type 0
IsPlain s = is_plain s ≡ true

abbrev IsDots : String → Type 0
IsDots s = str_eq s ".." ≡ true

-- The stack of a relative path: plain segments on top of those that lead upwards.
abbrev IsLayered : List String → Type 0
IsLayered [] = Unit {0}
IsLayered (s ∷ ss) = (IsPlain s × IsLayered ss) ⊎ (IsDots s × All IsDots ss)

not_both : (s : String) → IsPlain s → ¬ (IsDots s)
unfolding is_plain
not_both s plain dots = ground arith

up-IsLayered : (stack : List String) → IsLayered stack → IsLayered (up stack)
unfolding up
up-IsLayered [] h = inr (refl, tt)
up-IsLayered (s ∷ ss) (inl (plain, h)) = elim (Bool-cases (str_eq s "..")) [
  | inl dots ↦ absurd (not_both s plain dots)
  | inr other ↦ rw other h
]
up-IsLayered (s ∷ ss) (inr (dots, h)) = rw dots (inr (refl, (dots, h)))

push-IsLayered : (stack : List String) (s : String) → IsLayered stack → IsLayered (push up stack s)
unfolding push
push-IsLayered stack s h = elim (Bool-cases (is_plain s)) [
  | inl plain ↦ rw plain (inl (plain, h))
  | inr special ↦ elim (Bool-cases (str_eq s "..")) [
    | inl dots ↦ rw (special, dots) (up-IsLayered stack h)
    | inr skipped ↦ rw (special, skipped) h
  ]
]

push_all-IsLayered :
    (stack segments : List String) → IsLayered stack → IsLayered (push_all up stack segments)
unfolding push_all
push_all-IsLayered stack [] h = h
push_all-IsLayered stack (s ∷ ss) h =
    push_all-IsLayered (push up stack s) ss (push-IsLayered stack s h)

-- A stack with an upward segment is a path that starts with one.
starts_append :
    (xs ys : List String) → starts_with_dots xs ≡ true → starts_with_dots (xs ++ ys) ≡ true
starts_append [] ys h = cc
starts_append (x ∷ xs) ys h = h

dots_first : (s : String) → IsDots s → has_dots s ≡ true
dots_first s h = let same : s ≡ ".." = (eq_iff s "..").0 h in rw same refl

dots_start :
    (s : String) (ss : List String)
    → IsDots s
    → All IsDots ss
    → starts_with_dots (reverse (s ∷ ss)) ≡ true
dots_start s [] h hs = dots_first s h
dots_start s (t ∷ ts) h (k, hs) =
    rw (reverse-cons s (t ∷ ts)) (starts_append (reverse (t ∷ ts)) (s ∷ []) (dots_start t ts k hs))

IsLayered-IsPlain :
    (stack : List String)
    → IsLayered stack
    → starts_with_dots (reverse stack) ≡ false
    → All IsPlain stack
IsLayered-IsPlain [] h e = tt
IsLayered-IsPlain (s ∷ ss) (inl (plain, h)) e = elim (Bool-cases (starts_with_dots (reverse ss))) [
  | inl up_first ↦
      let bad : starts_with_dots (reverse (s ∷ ss)) ≡ true =
        rw (reverse-cons s ss) (starts_append (reverse ss) (s ∷ []) up_first) in
      cc
  | inr fine ↦ (plain, IsLayered-IsPlain ss h fine)
]
IsLayered-IsPlain (s ∷ ss) (inr (dots, h)) e = let bad = dots_start s ss dots h in cc

reverse_All : (xs : List String) → All IsPlain xs → All IsPlain (reverse xs)
reverse_All [] h = tt
reverse_All (x ∷ xs) (p, h) =
    rw (reverse-cons x xs) (All-append IsPlain (reverse xs) (x ∷ []) (reverse_All xs h) (p, tt))

-- Plain segments pile up.
push_all-plain :
    (stack segments : List String)
    → All IsPlain segments
    → push_all up_from_root stack segments ≡ reverse segments ++ stack
unfolding push_all push
push_all-plain stack [] h = refl
push_all-plain stack (s ∷ ss) (p, h) = rw p (
    push_all-plain (s ∷ stack) ss h
    ∙ sym (append_assoc (reverse ss) (s ∷ []) stack)
    ∙ ap (λ l. l ++ stack) (sym (reverse-cons s ss)))

join_root-plain :
    (root segments : List String)
    → All IsPlain segments
    → join_root root segments ≡ root ++ segments
join_root-plain root segments h =
    ap reverse (push_all-plain (reverse root) segments h)
    ∙ reverse-append (reverse segments) (reverse root)
    ∙ rw (reverse-reverse root, reverse-reverse segments) refl

-- Whatever the key, if it is not refused then it resolves to a path below the root: the root's own
-- segments, followed by names none of which is empty, `.` or `..`.
pub resolve_inside :
    (root : List String) (key : String) (file_path : List String)
    → resolve root key ≡ some file_path
    → (below : List String) × (file_path ≡ root ++ below) × All IsPlain below
unfolding resolve
resolve_inside root key file_path e =
    let stack = push_all up [] (split_slash key) in
    elim (Bool-cases (starts_with_dots (reverse stack))) [
      | inl escapes ↦ let refused : none ≡ some file_path = rw escapes at e in cc
      | inr stays ↦
          let plain =
            reverse_All stack
              (IsLayered-IsPlain stack (push_all-IsLayered [] (split_slash key) tt) stays) in
          elim (Bool-cases (is_slash_first key)) [
            | inl absolute ↦ let refused : none ≡ some file_path = rw (stays, absolute) at e in cc
            | inr relative ↦
                let there : some (join_root root (reverse stack)) ≡ some file_path =
                  rw (stays, relative) at e in
                let here : join_root root (reverse stack) ≡ file_path = cc in
                (reverse stack, sym here ∙ join_root-plain root (reverse stack) plain, plain)
          ]
    ]
