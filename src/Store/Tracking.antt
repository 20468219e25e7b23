-- ===== src/Store/Tracking.antt =====
-- Tracking a hashtag and finding it again (src/api/repositories/HashtagRepository.ts).
use saral.Base.{
  ℕ, ◌+◌, ◌≡◌, refl, ◌⊎◌, inl, inr, Option, none, some, [], ◌∷◌, String, find, length,
  length-append, Option-cases, eq_refl,
}
use saral.Store.Tables.{Database, Hashtag}
use saral.Store.Rows.{find-append, find-update_where, length-update_where}
use saral.Store.Hashtags.{
  has_name, find_by_name, new_hashtag, touch, normalize_hashtag_name, ensure_tracked,
}

-- After a hashtag is tracked it is found under the name that was given, however that is written, as
-- the row that was returned. A hashtag that was tracked before keeps its row: only its time of update
-- is new, and no row is added.
pub find_by_name-ensure_tracked :
    (trim to_lower_case : String → String) (now : ℕ) (raw : String) (from until : Option ℕ)
    (notes : Option String) (db : Database)
    → let (db', row) = ensure_tracked trim to_lower_case now raw from until notes db in
      (find_by_name trim to_lower_case raw db' ≡ some row)
      × (((find_by_name trim to_lower_case raw db ≡ none)
            × (row.name ≡ normalize_hashtag_name trim to_lower_case raw)
            × (length db'.hashtags ≡ length db.hashtags + 1))
          ⊎ ((old : Hashtag) × (find_by_name trim to_lower_case raw db ≡ some old)
              × (row ≡ touch now old)
              × (length db'.hashtags ≡ length db.hashtags)))
unfolding find_by_name ensure_tracked new_hashtag
find_by_name-ensure_tracked trim to_lower_case now raw from until notes db =
    let name = normalize_hashtag_name trim to_lower_case raw in
    let p = has_name name in
    elim (Option-cases (find p db.hashtags)) [
      | inl absent ↦
          let row = new_hashtag db.drawn now name from until notes in
          rw (absent, ensure_tracked)
            (
              find-append p db.hashtags row absent (eq_refl name),
              inl (refl, refl, length-append db.hashtags (row ∷ [])),
            )
      | inr (old, there) ↦
          rw (there, ensure_tracked)
            (
              find-update_where p (touch now) (λ x. refl) db.hashtags old there,
              inr (old, refl, refl, length-update_where p (touch now) db.hashtags),
            )
    ]
