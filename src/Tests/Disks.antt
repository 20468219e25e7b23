-- ===== src/Tests/Disks.antt =====
-- The disk storage at concrete inputs (src/adapters/local/LocalDiskStorage.ts).
use saral.Base.{
  ℕ, ◌≡◌, ◌≢◌, refl, ◌∙◌, true, false, Bool, ◌&&◌, Option, none, some, List, [], ◌∷◌, ◌++◌, String,
  if◌then◌else◌, All, Bool-cases, inl, inr, length, arith,
}
use text.Mathlib.Text.{◌==◌ as str_eq}
use text.Mathlib.TextEquality.{eq_iff}
use text.Mathlib.TextPositions.{eq_refl}
use saral.Asset.Storage.{Attempt, got, threw, PutOptions}
use saral.Disk.Paths.{resolve}
use saral.Disk.Inside.{IsPlain, resolve_inside}
use saral.Disk.Driver.{partial, Files, FileInfo, put_stream}
use saral.Disk.Atomic.{FilesLaws, Leaves, put_stream-Leaves}

abbrev root : List String
root = "srv" ∷ "storage" ∷ []

-- The key climbs and comes back.
climbs_back :
    resolve root "media/../media/./ab/x.jpg"
    ≡ some ("srv" ∷ "storage" ∷ "media" ∷ "ab" ∷ "x.jpg" ∷ [])
unfolding resolve
climbs_back = refl

refused_above : resolve root "media/../../etc/passwd" ≡ none
unfolding resolve
refused_above = refl

refused_absolute : resolve root "/etc/passwd" ≡ none
unfolding resolve
refused_absolute = refl

resolve_inside_example :
    (below : List String) × ("srv" ∷ "storage" ∷ "media" ∷ "ab" ∷ "x.jpg" ∷ [] ≡ root ++ below)
    × All IsPlain below
resolve_inside_example = resolve_inside root "media/../media/./ab/x.jpg" _ climbs_back

abbrev same_path : List String → List String → Bool
same_path [] [] = true
same_path (x ∷ xs) (y ∷ ys) = str_eq x y && same_path xs ys
same_path _ _ = false

same_path_refl : (xs : List String) → same_path xs xs ≡ true
same_path_refl [] = refl
same_path_refl (x ∷ xs) = rw (eq_refl x) (same_path_refl xs)

same_path_eq : (xs ys : List String) → same_path xs ys ≡ true → xs ≡ ys
same_path_eq [] [] e = refl
same_path_eq [] (y ∷ ys) e = cc
same_path_eq (x ∷ xs) [] e = cc
same_path_eq (x ∷ xs) (y ∷ ys) e = ground (arith, eq_iff x y, same_path_eq xs ys)

-- The files of a disk by their paths.
abbrev Disk : Type 0
Disk = List String → Option (List ℕ)

abbrev on_disk : Disk → List String → Option (List ℕ)
on_disk d p = d p

abbrev put_at : List String → Option (List ℕ) → Disk → Disk
put_at t v d u = if same_path u t then v else d u

put_at_other : (t u : List String) (v : Option (List ℕ)) (d : Disk) → u ≢ t → put_at t v d u ≡ d u
put_at_other t u v d ne = elim (Bool-cases (same_path u t)) [
  | inl same ↦ absurd (ne (same_path_eq u t same))
  | inr other ↦ rw other refl
]

abbrev size_of : Option (List ℕ) → Attempt FileInfo String
size_of none = threw "ENOENT"
size_of (some bytes) = got (record { is_file = true; size = length bytes })

abbrev sound_disk : Files Disk
sound_disk = record {
  pid = "7";
  stat = λ p d. (d, size_of (d p));
  make_dir = λ p d. (d, none);
  write_stream = λ p body d. (put_at p (some body) d, none);
  rename = λ old new d. (put_at new (d old) (put_at old none d), none);
  unlink = λ p d. (put_at p none d, none);
}

laws : FilesLaws sound_disk on_disk
laws = record {
  stat_keeps = λ p q d. refl;
  make_dir_keeps = λ p q d. refl;
  write_keeps = λ p q body d ne. put_at_other p q (some body) d ne;
  write_whole = λ p body d ok. rw (same_path_refl p) refl;
  rename_moves = λ p q d ok. rw (same_path_refl q) refl;
  rename_keeps =
      λ p q u d from to. put_at_other q u (d p) (put_at p none d) to ∙ put_at_other p u none d from;
  rename_fails = λ p q u d e failed. cc;
  unlink_keeps = λ p q d ne. put_at_other p q none d ne;
}

-- The partial path of the key `a` is the path of another key.
partial_is_a_key :
    (partial "7" ("srv" ∷ "a" ∷ []) ≡ "srv" ∷ "a.7.partial" ∷ [])
    × (resolve ("srv" ∷ []) "a.7.partial" ≡ some ("srv" ∷ "a.7.partial" ∷ []))
unfolding resolve
partial_is_a_key = (refl, refl)

-- A file is there under another key.
abbrev one_file : Disk
one_file = put_at ("srv" ∷ "storage" ∷ "media" ∷ "y.jpg" ∷ []) (some (3 ∷ [])) (λ p. none)

abbrev options : PutOptions
options = record { content_type = none; content_length = 2 }

put_stream-Leaves_example :
    Leaves sound_disk on_disk laws root
      ("srv" ∷ "storage" ∷ "media" ∷ "ab" ∷ "x.jpg" ∷ [])
      (1 ∷ 2 ∷ [])
      one_file
      (put_stream sound_disk root "media/../media/./ab/x.jpg" (1 ∷ 2 ∷ []) options one_file)
put_stream-Leaves_example =
    put_stream-Leaves sound_disk on_disk laws root _ (1 ∷ 2 ∷ []) "media/../media/./ab/x.jpg"
      options one_file climbs_back
