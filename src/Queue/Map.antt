-- ===== src/Queue/Map.antt =====
-- Laws of the Map of src/adapters/local/InMemoryQueue.ts: what each operation does to a sum over
-- the envelopes that it holds, and to a property of its entries.
use saral.Base.{
  ℕ, ◌+◌, ◌≤◌, ◌<◌, ◌≡◌, refl, Bool, none, some, List, [], ◌∷◌, arith, ◌==◌, if◌then◌else◌, All,
  Bool-cases, inl, inr, ==_iff,
}
use mathlib.Core.Path.{subst₂}
use saral.Queue.Memory.{Envelope, map_get, map_delete, map_set}

abbrev pub weigh : (Envelope → ℕ) → List (ℕ × Envelope) → ℕ
weigh f [] = 0
weigh f ((k, e) ∷ m) = f e + weigh f m

abbrev pub Entry : (ℕ → Envelope → Type 0) → ℕ × Envelope → Type 0
Entry P (k, e) = P k e

pub weigh-map_set_le :
    (f : Envelope → ℕ) (k : ℕ) (v : Envelope) (m : List (ℕ × Envelope))
    → weigh f (map_set k v m) ≤ weigh f m + f v
unfolding map_set
weigh-map_set_le f k v [] = omega arith
weigh-map_set_le f k v ((j, e) ∷ m) = ground (arith, weigh-map_set_le f k v m)

pub weigh-map_set_fresh :
    (f : Envelope → ℕ) (k : ℕ) (v : Envelope) (m : List (ℕ × Envelope))
    → map_get k m ≡ none
    → weigh f (map_set k v m) ≡ weigh f m + f v
unfolding map_set map_get
weigh-map_set_fresh f k v [] h = omega arith
weigh-map_set_fresh f k v ((j, e) ∷ m) h = ground (arith, weigh-map_set_fresh f k v m)

pub weigh-map_set_old :
    (f : Envelope → ℕ) (k : ℕ) (v old : Envelope) (m : List (ℕ × Envelope))
    → map_get k m ≡ some old
    → weigh f (map_set k v m) + f old ≡ weigh f m + f v
unfolding map_set map_get
weigh-map_set_old f k v old [] h = cc
weigh-map_set_old f k v old ((j, e) ∷ m) h = ground (arith, weigh-map_set_old f k v old m)

pub weigh-map_delete :
    (f : Envelope → ℕ) (k : ℕ) (old : Envelope) (m : List (ℕ × Envelope))
    → map_get k m ≡ some old
    → weigh f (map_delete k m) + f old ≡ weigh f m
unfolding map_delete map_get
weigh-map_delete f k old [] h = cc
weigh-map_delete f k old ((j, e) ∷ m) h = ground (arith, weigh-map_delete f k old m)

pub weigh-map_delete_le :
    (f : Envelope → ℕ) (k : ℕ) (m : List (ℕ × Envelope)) → weigh f (map_delete k m) ≤ weigh f m
unfolding map_delete
weigh-map_delete_le f k [] = omega arith
weigh-map_delete_le f k ((j, e) ∷ m) = ground (arith, weigh-map_delete_le f k m)

-- A property of the entries, kept by each operation.
module _ (P : ℕ → Envelope → Type 0) where
  pub All-map_set :
      (k : ℕ) (v : Envelope) (m : List (ℕ × Envelope))
      → All (Entry P) m
      → P k v
      → All (Entry P) (map_set k v m)
  unfolding map_set
  All-map_set k v [] h p = (p, tt)
  All-map_set k v ((j, e) ∷ m) (q, h) p = elim (Bool-cases (j == k)) [
    | inl same ↦ rw same (rw ((==_iff j k).0 same) p, h)
    | inr other ↦ rw other (q, All-map_set k v m h p)
  ]

  pub All-map_delete :
      (k : ℕ) (m : List (ℕ × Envelope)) → All (Entry P) m → All (Entry P) (map_delete k m)
  unfolding map_delete
  All-map_delete k [] h = tt
  All-map_delete k ((j, e) ∷ m) (q, h) = elim (Bool-cases (j == k)) [
    | inl same ↦ rw same h
    | inr other ↦ rw other (q, All-map_delete k m h)
  ]

  pub map_get-All :
      (k : ℕ) (e : Envelope) (m : List (ℕ × Envelope))
      → All (Entry P) m
      → map_get k m ≡ some e
      → P k e
  unfolding map_get
  map_get-All k e [] h found = cc
  map_get-All k e ((j, d) ∷ m) (q, h) found = elim (Bool-cases (j == k)) [
    | inl same ↦ let here : d ≡ e = ground arith in subst₂ P ((==_iff j k).0 same) here q
    | inr other ↦ map_get-All k e m h (rw other at found)
  ]

-- A key above all those in use is absent.
pub map_get_fresh :
    (k : ℕ) (m : List (ℕ × Envelope)) → All (Entry (λ j e. j < k)) m → map_get k m ≡ none
unfolding map_get
map_get_fresh k [] h = refl
map_get_fresh k ((j, e) ∷ m) (p, h) = ground (arith, map_get_fresh k m h)

pub map_get-map_set :
    (k j : ℕ) (v : Envelope) (m : List (ℕ × Envelope))
    → map_get j (map_set k v m) ≡ (if k == j then some v else map_get j m)
unfolding map_get map_set
map_get-map_set k j v [] = refl
map_get-map_set k j v ((i, e) ∷ m) = ground (arith, map_get-map_set k j v m)

-- Deleting one key leaves the others.
pub map_get-map_delete_ne :
    (k j : ℕ) (m : List (ℕ × Envelope))
    → (k == j) ≡ Bool.false
    → map_get j (map_delete k m) ≡ map_get j m
unfolding map_get map_delete
map_get-map_delete_ne k j [] h = refl
map_get-map_delete_ne k j ((i, e) ∷ m) h = ground (arith, map_get-map_delete_ne k j m)

pub map_delete_absent : (k : ℕ) (m : List (ℕ × Envelope)) → map_get k m ≡ none → map_delete k m ≡ m
unfolding map_get map_delete
map_delete_absent k [] h = refl
map_delete_absent k ((j, e) ∷ m) h = ground (arith, map_delete_absent k m)
