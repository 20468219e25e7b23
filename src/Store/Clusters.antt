-- ===== src/Store/Clusters.antt =====
-- The groups of findRepostClusters (src/api/repositories/MediaAssetRepository.ts): the files that
-- several posts share.
use saral.Base.{
  ℕ, zero, suc, ◌≤◌, ◌≡◌, refl, ap, ◌∙◌, inl, inr, Bool, false, Option, none, some, List, [], ◌∷◌,
  String, leb, arith, keep, find, tally, if◌then◌else◌, Bool-cases, eq_iff, eq_refl, sym,
}
use text.Mathlib.Text.{◌==◌ as str_eq}
use mathlib.Core.Path.{subst}
use saral.Store.Tables.{Database, MediaAsset}
use saral.Store.Reads.{
  Group, is_group, add_to_groups, group_counts, hashes_of, counts_enough, find_repost_clusters,
}

-- The row of a key that occurs `n` times.
abbrev pub group_of : String → ℕ → Option Group
group_of k zero = none
group_of k (suc n) = some (record { group_key = k; group_count = suc n })

-- The assets that hold the file of a hash.
abbrev pub has_hash : String → MediaAsset → Bool
has_hash k a = elim a.sha256 [ none ↦ false | some h ↦ str_eq h k ]

add_to_groups-same :
    (k : String) (n : ℕ) (gs : List Group)
    → find (is_group k) gs ≡ group_of k n
    → find (is_group k) (add_to_groups k gs) ≡ group_of k (suc n)
add_to_groups-same k zero [] h = rw (eq_refl k) refl
add_to_groups-same k (suc n) [] h = cc
add_to_groups-same k zero (g ∷ gs) h = ground (arith, add_to_groups-same k zero gs)
add_to_groups-same k (suc n) (g ∷ gs) h = ground (arith, add_to_groups-same k (suc n) gs)

add_to_groups-other :
    (j k : String) (gs : List Group)
    → str_eq j k ≡ false
    → find (is_group k) (add_to_groups j gs) ≡ find (is_group k) gs
add_to_groups-other j k [] ne = rw ne refl
add_to_groups-other j k (g ∷ gs) ne =
    ground
      (arith, add_to_groups-other j k gs ne, eq_iff g.group_key j, eq_iff g.group_key k, eq_iff j k)

tally-add_other :
    (j k : String) (gs : List Group)
    → str_eq j k ≡ false
    → tally (is_group k) (add_to_groups j gs) ≡ tally (is_group k) gs
tally-add_other j k [] ne = rw ne (omega arith)
tally-add_other j k (g ∷ gs) ne =
    ground
      (arith, tally-add_other j k gs ne, eq_iff g.group_key j, eq_iff g.group_key k, eq_iff j k)

tally-add_same :
    (k : String) (gs : List Group)
    → tally (is_group k) gs ≤ 1
    → tally (is_group k) (add_to_groups k gs) ≤ 1
tally-add_same k [] once = ground arith
tally-add_same k (g ∷ gs) once = ground (arith, tally-add_same k gs)

add_to_groups_once :
    (j k : String) (gs : List Group)
    → tally (is_group k) gs ≤ 1
    → tally (is_group k) (add_to_groups j gs) ≤ 1
add_to_groups_once j k gs once = elim (Bool-cases (str_eq j k)) [
  | inl same ↦
      subst (λ i. tally (is_group k) (add_to_groups i gs) ≤ 1) (sym ((eq_iff j k).0 same))
        (tally-add_same k gs once)
  | inr other ↦ omega (arith, tally-add_other j k gs other)
]

-- Every key has one row, with the number of its occurrences.
group_counts-find :
    (k : String) (ks : List String)
    → find (is_group k) (group_counts ks) ≡ group_of k (tally (λ s. str_eq s k) ks)
unfolding group_counts
group_counts-find k [] = refl
group_counts-find k (j ∷ ks) =
    let n = tally (λ s. str_eq s k) ks in
    elim (Bool-cases (str_eq j k)) [
      | inl same ↦
          let more : tally (λ s. str_eq s k) (j ∷ ks) ≡ suc n = ground arith in
          subst (λ i. find (is_group k) (add_to_groups i (group_counts ks)) ≡ group_of k (suc n))
            (sym ((eq_iff j k).0 same))
            (add_to_groups-same k n (group_counts ks) (group_counts-find k ks))
          ∙ ap (group_of k) (sym more)
      | inr other ↦
          let as_many : tally (λ s. str_eq s k) (j ∷ ks) ≡ n = ground arith in
          add_to_groups-other j k (group_counts ks) other
          ∙ group_counts-find k ks
          ∙ ap (group_of k) (sym as_many)
    ]

group_counts_once : (k : String) (ks : List String) → tally (is_group k) (group_counts ks) ≤ 1
unfolding group_counts
group_counts_once k [] = ground arith
group_counts_once k (j ∷ ks) = add_to_groups_once j k (group_counts ks) (group_counts_once k ks)

tally-hashes_of :
    (k : String) (rows : List MediaAsset)
    → tally (λ s. str_eq s k) (hashes_of rows) ≡ tally (has_hash k) rows
tally-hashes_of k [] = refl
tally-hashes_of k (a ∷ rows) = ground (arith, tally-hashes_of k rows)

module _ {ℓ} {A : Type ℓ} (p q : A → Bool) where
  find_of_no_tally : (xs : List A) → tally p xs ≡ 0 → find p (keep q xs) ≡ none
  find_of_no_tally [] h = refl
  find_of_no_tally (x ∷ xs) h = ground (arith, find_of_no_tally xs)

  -- A row that is alone in passing `p`.
  find-keep :
      (xs : List A) (x : A)
      → tally p xs ≤ 1
      → find p xs ≡ some x
      → find p (keep q xs) ≡ (if q x then some x else none)
  find-keep [] x once h = cc
  find-keep (y ∷ xs) x once h = ground (arith, find-keep xs x, find_of_no_tally xs)

  find-keep-none : (xs : List A) → find p xs ≡ none → find p (keep q xs) ≡ none
  find-keep-none [] h = refl
  find-keep-none (x ∷ xs) h = ground (arith, find-keep-none xs)

tally-keep_le : {A : Type 0} (p q : A → Bool) (xs : List A) → tally p (keep q xs) ≤ tally p xs
tally-keep_le p q [] = omega arith
tally-keep_le p q (x ∷ xs) = ground (arith, tally-keep_le p q xs)

kept_group :
    (min_count : ℕ) (k : String) (gs : List Group) (n : ℕ)
    → 1 ≤ min_count
    → tally (is_group k) gs ≤ 1
    → find (is_group k) gs ≡ group_of k n
    → find (is_group k) (keep (counts_enough min_count) gs)
      ≡ (if leb min_count n then some (record { group_key = k; group_count = n }) else none)
kept_group min_count k gs zero least once h =
    find-keep-none (is_group k) (counts_enough min_count) gs h ∙ ground arith
kept_group min_count k gs (suc n) least once h =
    find-keep (is_group k) (counts_enough min_count) gs _ once h

-- A hash has one row in the answer if at least `min_count` assets hold its file, which says how many
-- do, and no row otherwise.
pub find_repost_clusters_exact :
    (min_count : ℕ) (db : Database) (k : String)
    → 1 ≤ min_count
    → let clusters = find_repost_clusters min_count db in
      let n = tally (has_hash k) db.media_assets in
      (tally (is_group k) clusters ≤ 1)
      × (find (is_group k) clusters
          ≡ (if leb min_count n then some (record { group_key = k; group_count = n }) else none))
unfolding find_repost_clusters
find_repost_clusters_exact min_count db k least =
    let ks = hashes_of db.media_assets in
    let p = is_group k in
    let q = counts_enough min_count in
    let once = group_counts_once k ks in
    let counted = group_counts-find k ks in
    (
      omega (arith, tally-keep_le p q (group_counts ks), once),
      kept_group min_count k (group_counts ks) _ least once
          (counted ∙ ap (group_of k) (tally-hashes_of k db.media_assets)),
    )
