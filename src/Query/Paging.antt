-- ===== src/Query/Paging.antt =====
-- Keyset pagination of listMedia (src/api/repositories/HashtagMediaQueryRepository.ts) under the
-- loop of a client that follows `nextCursor` of src/api/controllers/HashtagController.ts.
use saral.Base.{
  ℕ, zero, suc, ◌-◌, ◌≤◌, ◌<◌, ◌≡◌, refl, ◌⊎◌, true, false, none, some, List, [], ◌∷◌, ◌++◌, String,
  arith, ltb, keep, take, drop, length, length-take, take-append-drop, append_assoc, Bool-cases,
  inl, inr, sym, ap, ◌∙◌, ltb→lt,
}
use mathlib.Core.Path.{subst}
use saral.Store.Tables.{Database}
use saral.Query.Listing.{
  ListMediaFilters, ListMediaRow, join_rows, selected, counted, key, past, insert_row, order_rows,
  list_media, count_media, last_row, key_of, next_cursor, read_pages,
}
use saral.Query.Order.{
  IsDescending, IsDistinct, order_rows-IsDescending, keep-IsDistinct, order_rows-keep, keep-and,
  keep-behind,
}

last_row-split :
    (r : ListMediaRow) (rs : List ListMediaRow)
    → (init : List ListMediaRow) × (x : ListMediaRow) × (last_row (r ∷ rs) ≡ some x)
      × (r ∷ rs ≡ init ++ x ∷ [])
last_row-split r [] = ([], r, refl, refl)
last_row-split r (s ∷ ss) =
    let (init, x, e, h) = last_row-split s ss in (r ∷ init, x, e, ap (λ l. r ∷ l) h)

take-take_more : (n : ℕ) (rs : List ListMediaRow) → take n (take (suc n) rs) ≡ take n rs
take-take_more zero rs = refl
take-take_more (suc n) [] = refl
take-take_more (suc n) (r ∷ rs) = ap (λ l. r ∷ l) (take-take_more n rs)

take-all : (n : ℕ) (rs : List ListMediaRow) → length rs ≤ n → take n rs ≡ rs
take-all zero [] h = refl
take-all zero (r ∷ rs) h = ground arith
take-all (suc n) [] h = refl
take-all (suc n) (r ∷ rs) h = ap (λ l. r ∷ l) (take-all n rs (omega arith))

take-filled :
    (n : ℕ) (rs : List ListMediaRow)
    → 1 ≤ n
    → n ≤ length rs
    → (r : ListMediaRow) × (rest : List ListMediaRow) × (take n rs ≡ r ∷ rest)
take-filled zero rs h k = elim h [ ]
take-filled (suc n) [] h k = elim k [ ]
take-filled (suc n) (r ∷ rs) h k = (r, take n rs, refl)

length-drop : (n : ℕ) (rs : List ListMediaRow) → length (drop n rs) ≡ length rs - n
length-drop zero rs = omega arith
length-drop (suc n) [] = omega arith
length-drop (suc n) (r ∷ rs) = omega (arith, length-drop n rs)

keep-first : (rs : List ListMediaRow) → keep (past none) rs ≡ rs
keep-first [] = refl
keep-first (r ∷ rs) = ap (λ l. r ∷ l) (keep-first rs)

-- A full page ends in a row, and the listing parts behind it.
page-split :
    (n : ℕ) (behind : List ListMediaRow)
    → 1 ≤ n
    → n ≤ length behind
    → (init : List ListMediaRow) × (x : ListMediaRow) × (last_row (take n behind) ≡ some x)
      × (behind ≡ init ++ x ∷ drop n behind)
page-split n behind one long =
    let (r, rest, e) = take-filled n behind one long in
    let (init, x, last, whole) = last_row-split r rest in
    (
      init,
      x,
      rw e last,
      sym (take-append-drop n behind)
          ∙ ap (λ l. l ++ drop n behind) (e ∙ whole)
          ∙ append_assoc init (x ∷ []) (drop n behind),
    )

length-order_rows : (rs : List ListMediaRow) → length (order_rows rs) ≡ length rs
unfolding order_rows insert_row
length-order_rows [] = refl
length-order_rows (r ∷ rs) = inserted (order_rows rs) ∙ ap suc (length-order_rows rs)
  where
    inserted : (ss : List ListMediaRow) → length (insert_row r ss) ≡ suc (length ss)
    inserted [] = refl
    inserted (s ∷ ss) = ground (arith, inserted ss)

module _ (to_lower_case : String → String) (db : Database) where
  -- All that a listing has, in its order.
  abbrev pub full_listing : ListMediaFilters → List ListMediaRow
  full_listing f = order_rows (keep (selected to_lower_case f) (join_rows db db.media_posts))

  -- A page, as a part of the rows behind its cursor.
  list_media-page :
      (f : ListMediaFilters) (behind : List ListMediaRow)
      → IsDistinct (join_rows db db.media_posts)
      → keep (past f.cursor) (full_listing f) ≡ behind
      → ((ltb f.limit (length behind) ≡ true)
          × (list_media to_lower_case f db
              ≡ record { rows = take f.limit behind; has_more = true }))
        ⊎ ((ltb f.limit (length behind) ≡ false)
            × (list_media to_lower_case f db ≡ record { rows = behind; has_more = false }))
  unfolding list_media
  list_media-page f behind distinct here =
      let joined = join_rows db db.media_posts in
      let behind_rows =
        ap order_rows (keep-and (selected to_lower_case f) (past f.cursor) joined)
        ∙ order_rows-keep (past f.cursor) (keep (selected to_lower_case f) joined)
            (keep-IsDistinct (selected to_lower_case f) joined distinct)
        ∙ here in
      let taken = length-take (suc f.limit) behind in
      elim (Bool-cases (ltb f.limit (length behind))) [
        | inl e ↦
            let more : ltb f.limit (length (take (suc f.limit) behind)) ≡ true = ground arith in
            inl (e, rw (behind_rows, more, list_media) (rw (take-take_more f.limit behind) refl))
        | inr e ↦
            let whole = take-all (suc f.limit) behind (ground arith) in
            inr (e, rw (behind_rows, whole, e, list_media) refl)
      ]

  -- With a cursor on the last row of a part of the full listing, what is past it is the rest.
  past_last :
      (f : ListMediaFilters) (before : List ListMediaRow) (x : ListMediaRow)
      (behind : List ListMediaRow)
      → IsDistinct (join_rows db db.media_posts)
      → full_listing f ≡ before ++ x ∷ behind
      → keep (past (some (key x))) (full_listing f) ≡ behind
  past_last f before x behind distinct e =
      let sorted =
        order_rows-IsDescending (keep (selected to_lower_case f) (join_rows db db.media_posts))
          (keep-IsDistinct (selected to_lower_case f) (join_rows db db.media_posts) distinct) in
      rw e (keep-behind before x behind (subst IsDescending e sorted))

  pub read_pages-next :
      (fuel : ℕ) (f : ListMediaFilters) (c : ℕ × ℕ)
      → next_cursor (list_media to_lower_case f db) ≡ some c
      → read_pages (suc fuel) to_lower_case f db
        ≡ (list_media to_lower_case f db).rows
          ++ read_pages fuel to_lower_case (record f { cursor = some c }) db
  unfolding read_pages
  read_pages-next fuel f c h = ground arith

  pub read_pages-end :
      (fuel : ℕ) (f : ListMediaFilters)
      → next_cursor (list_media to_lower_case f db) ≡ none
      → read_pages (suc fuel) to_lower_case f db ≡ (list_media to_lower_case f db).rows
  unfolding read_pages
  read_pages-end fuel f h = ground arith

  read_pages-behind :
      (fuel : ℕ) (f : ListMediaFilters) (before behind : List ListMediaRow)
      → IsDistinct (join_rows db db.media_posts)
      → 1 ≤ f.limit
      → full_listing f ≡ before ++ behind
      → keep (past f.cursor) (full_listing f) ≡ behind
      → length behind < fuel
      → read_pages fuel to_lower_case f db ≡ behind
  unfolding read_pages
  read_pages-behind zero f before behind distinct one all here enough = ground arith
  read_pages-behind (suc fuel) f before behind distinct one all here enough =
      elim (list_media-page f behind distinct here) [
        | inr (short, e) ↦ read_pages-end fuel f (ap next_cursor e) ∙ ap (λ p. p.rows) e
        | inl (long, e) ↦
            let left = drop f.limit behind in
            let enough_rows : f.limit < length behind = ltb→lt f.limit (length behind) long in
            let (init, x, last, whole) = page-split f.limit behind one (omega arith) in
            let parted =
              all ∙ ap (λ l. before ++ l) whole ∙ sym (append_assoc before init (x ∷ left)) in
            let next = past_last f (before ++ init) x left distinct parted in
            let rest =
              read_pages-behind fuel (record f { cursor = some (key x) })
                ((before ++ init) ++ x ∷ []) left distinct one
                (parted ∙ sym (append_assoc (before ++ init) (x ∷ []) left)) next
                (omega (arith, length-drop f.limit behind)) in
            let cursor = ap next_cursor e ∙ ap key_of last in
            read_pages-next fuel f (key x) cursor
            ∙ ap (λ l. (list_media to_lower_case f db).rows ++ l) rest
            ∙ ap (λ p. p.rows ++ left) e
            ∙ take-append-drop f.limit behind
      ]

  -- With no two rows of one id and a page of at least one row, a client that follows `nextCursor` from
  -- the first page to the last reads exactly the listing without a limit: every selected row
  -- once, in strictly descending (taken_at, id). As many requests as there are rows, and one, are
  -- enough.
  pub read_pages_complete :
      (f : ListMediaFilters)
      → IsDistinct (join_rows db db.media_posts)
      → 1 ≤ f.limit
      → f.cursor ≡ none
      → (read_pages (suc (length (full_listing f))) to_lower_case f db ≡ full_listing f)
        × IsDescending (full_listing f)
  read_pages_complete f distinct one first = (
    read_pages-behind _ f [] (full_listing f) distinct one refl
        (rw first (keep-first (full_listing f))) (omega arith),
    order_rows-IsDescending _ (keep-IsDistinct (selected to_lower_case f) _ distinct),
  )

  -- The count beside a listing is the length of the whole listing where no date bounds are given. The
  -- bounds narrow the listing and not the count, which then is only no less.
  pub count_media-listing :
      (f : ListMediaFilters)
      → (length (full_listing f) ≤ count_media to_lower_case f db)
        × (f.taken_after ≡ none
            → f.taken_before ≡ none
            → length (full_listing f) ≡ count_media to_lower_case f db)
  unfolding count_media
  count_media-listing f =
      let rows = join_rows db db.media_posts in
      let sorted = length-order_rows (keep (selected to_lower_case f) rows) in
      (rw sorted (fewer rows), λ after before. sorted ∙ same after before rows)
    where
      fewer :
          (rows : List ListMediaRow)
          → length (keep (selected to_lower_case f) rows)
            ≤ length (keep (counted to_lower_case f) rows)
      fewer [] = ground arith
      fewer (r ∷ rs) = ground (arith, fewer rs)

      same :
          f.taken_after ≡ none
          → f.taken_before ≡ none
          → (rows : List ListMediaRow)
          → length (keep (selected to_lower_case f) rows)
            ≡ length (keep (counted to_lower_case f) rows)
      same after before [] = refl
      same after before (r ∷ rs) = ground (arith, same after before rs)
