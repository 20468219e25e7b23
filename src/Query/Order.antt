-- ===== src/Query/Order.antt =====
-- The order of the rows of listMedia (src/api/repositories/HashtagMediaQueryRepository.ts).
use saral.Base.{
  ◌≡◌, refl, ◌≢◌, Bool, true, false, ◌&&◌, List, [], ◌∷◌, ◌++◌, arith, keep, All, All-map,
  Bool-cases, inl, inr, sym, ap, ◌∙◌,
}
use saral.Query.Listing.{ListMediaRow, key, precedes, insert_row, order_rows}

-- Strictly descending in (taken_at, id).
abbrev pub IsDescending : List ListMediaRow → Type 0
IsDescending [] = Unit
IsDescending (r ∷ rs) = All (λ s. precedes (key r) (key s) ≡ true) rs × IsDescending rs

-- No two rows with one id.
abbrev pub IsDistinct : List ListMediaRow → Type 0
IsDistinct [] = Unit
IsDistinct (r ∷ rs) = All (λ s. s.post.id ≢ r.post.id) rs × IsDistinct rs

precedes_trans :
    (a b c : ListMediaRow)
    → precedes (key a) (key b) ≡ true
    → precedes (key b) (key c) ≡ true
    → precedes (key a) (key c) ≡ true
precedes_trans a b c h k = ground arith

precedes-total :
    (a b : ListMediaRow)
    → precedes (key a) (key b) ≡ false
    → a.post.id ≢ b.post.id
    → precedes (key b) (key a) ≡ true
precedes-total a b h k = ground arith

insert_row-All :
    (P : ListMediaRow → Type 0) (r : ListMediaRow) (rs : List ListMediaRow)
    → P r
    → All P rs
    → All P (insert_row r rs)
unfolding insert_row
insert_row-All P r [] p h = (p, tt)
insert_row-All P r (s ∷ ss) p (q, h) = elim (Bool-cases (precedes (key s) (key r))) [
  | inl e ↦ rw e (q, insert_row-All P r ss p h)
  | inr e ↦ rw e (p, (q, h))
]

pub order_rows-All :
    (P : ListMediaRow → Type 0) (rs : List ListMediaRow) → All P rs → All P (order_rows rs)
unfolding order_rows
order_rows-All P [] h = tt
order_rows-All P (r ∷ rs) (p, h) = insert_row-All P r (order_rows rs) p (order_rows-All P rs h)

insert_row-IsDescending :
    (r : ListMediaRow) (rs : List ListMediaRow)
    → All (λ s. s.post.id ≢ r.post.id) rs
    → IsDescending rs
    → IsDescending (insert_row r rs)
unfolding insert_row
insert_row-IsDescending r [] d h = (tt, tt)
insert_row-IsDescending r (s ∷ ss) (ne, d) (before, h) =
    elim (Bool-cases (precedes (key s) (key r))) [
      | inl e ↦ rw e (
        insert_row-All (λ x. precedes (key s) (key x) ≡ true) r ss e before,
        insert_row-IsDescending r ss d h,
      )
      | inr e ↦
          let first = precedes-total s r e ne in
          let all_before = All-map (λ x k. precedes_trans r s x first k) ss before in
          rw e ((first, all_before), (before, h))
    ]

pub order_rows-IsDescending :
    (rs : List ListMediaRow) → IsDistinct rs → IsDescending (order_rows rs)
unfolding order_rows
order_rows-IsDescending [] d = tt
order_rows-IsDescending (r ∷ rs) (ne, d) =
    insert_row-IsDescending r (order_rows rs) (order_rows-All _ rs ne)
      (order_rows-IsDescending rs d)

pub keep-All :
    (P : ListMediaRow → Type 0) (p : ListMediaRow → Bool) (rs : List ListMediaRow)
    → All P rs
    → All P (keep p rs)
keep-All P p [] h = tt
keep-All P p (r ∷ rs) (x, h) = elim (Bool-cases (p r)) [
  | inl e ↦ rw e (x, keep-All P p rs h)
  | inr e ↦ rw e (keep-All P p rs h)
]

pub keep-IsDistinct :
    (p : ListMediaRow → Bool) (rs : List ListMediaRow) → IsDistinct rs → IsDistinct (keep p rs)
keep-IsDistinct p [] d = tt
keep-IsDistinct p (r ∷ rs) (ne, d) = elim (Bool-cases (p r)) [
  | inl e ↦ rw e (keep-All _ p rs ne, keep-IsDistinct p rs d)
  | inr e ↦ rw e (keep-IsDistinct p rs d)
]

insert_row-front :
    (r : ListMediaRow) (rs : List ListMediaRow)
    → All (λ s. precedes (key s) (key r) ≡ false) rs
    → insert_row r rs ≡ r ∷ rs
unfolding insert_row
insert_row-front r [] h = refl
insert_row-front r (s ∷ ss) (e, h) = rw e refl

insert_row-keep :
    (p : ListMediaRow → Bool) (r : ListMediaRow) (rs : List ListMediaRow)
    → p r ≡ true
    → IsDescending rs
    → keep p (insert_row r rs) ≡ insert_row r (keep p rs)
unfolding insert_row
insert_row-keep p r [] e d = ground arith
insert_row-keep p r (s ∷ ss) e (before, d) =
    let deeper = insert_row-keep p r ss e d in
    elim (Bool-cases (precedes (key s) (key r))) [
      | inl h ↦ elim (Bool-cases (p s)) [
        | inl k ↦ rw (h, k, insert_row) (ground arith)
        | inr k ↦ rw (h, k, insert_row) (ground arith)
      ]
      | inr h ↦ elim (Bool-cases (p s)) [
        | inl k ↦ rw (h, e, k, insert_row) (ground arith)
        | inr k ↦
            let behind =
              insert_row-front r (keep p ss)
                (keep-All _ p ss (All-map (λ x b. not_before s x r b h) ss before)) in
            rw (h, e, k, insert_row) (sym behind)
      ]
    ]
  where
    not_before :
        (s x r : ListMediaRow)
        → precedes (key s) (key x) ≡ true
        → precedes (key s) (key r) ≡ false
        → precedes (key x) (key r) ≡ false
    not_before s x r b h = ground arith

insert_row-drop :
    (p : ListMediaRow → Bool) (r : ListMediaRow) (rs : List ListMediaRow)
    → p r ≡ false
    → keep p (insert_row r rs) ≡ keep p rs
unfolding insert_row
insert_row-drop p r [] e = ground arith
insert_row-drop p r (s ∷ ss) e = ground (arith, insert_row-drop p r ss e)

-- Filtering before or after the sort.
pub order_rows-keep :
    (p : ListMediaRow → Bool) (rs : List ListMediaRow)
    → IsDistinct rs
    → order_rows (keep p rs) ≡ keep p (order_rows rs)
unfolding order_rows
order_rows-keep p [] d = refl
order_rows-keep p (r ∷ rs) (ne, d) =
    let sorted = order_rows-IsDescending rs d in
    let deeper = order_rows-keep p rs d in
    elim (Bool-cases (p r)) [
      | inl e ↦
          rw (e, order_rows)
            (ap (insert_row r) deeper ∙ sym (insert_row-keep p r (order_rows rs) e sorted))
      | inr e ↦ rw (e, order_rows) (deeper ∙ sym (insert_row-drop p r (order_rows rs) e))
    ]

pub keep-and :
    (p q : ListMediaRow → Bool) (rs : List ListMediaRow)
    → keep (λ r. p r && q r) rs ≡ keep q (keep p rs)
keep-and p q [] = refl
keep-and p q (r ∷ rs) = ground (arith, keep-and p q rs)

keep-all :
    (p : ListMediaRow → Bool) (rs : List ListMediaRow) → All (λ r. p r ≡ true) rs → keep p rs ≡ rs
keep-all p [] h = refl
keep-all p (r ∷ rs) (e, h) = ground (arith, keep-all p rs h)

-- Past a row of the list there is exactly the part behind it.
pub keep-behind :
    (before : List ListMediaRow) (x : ListMediaRow) (behind : List ListMediaRow)
    → IsDescending (before ++ x ∷ behind)
    → keep (λ r. precedes (key x) (key r)) (before ++ x ∷ behind) ≡ behind
keep-behind [] x behind (h, d) = ground (arith, keep-all (λ r. precedes (key x) (key r)) behind h)
keep-behind (b ∷ bs) x behind (h, d) =
    let first = All-middle bs h in ground (arith, keep-behind bs x behind d)
  where
    All-middle :
        (bs : List ListMediaRow)
        → All (λ s. precedes (key b) (key s) ≡ true) (bs ++ x ∷ behind)
        → precedes (key b) (key x) ≡ true
    All-middle [] (e, _) = e
    All-middle (c ∷ cs) (_, h) = All-middle cs h
