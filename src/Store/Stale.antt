-- ===== src/Store/Stale.antt =====
-- markStaleBefore of src/api/repositories/MediaRepository.ts.
use saral.Base.{ℕ, ◌≡◌, refl, Bool, true, ◌&&◌, not, List, [], ◌∷◌, arith, ltb, ◌==◌, tally, length}
use saral.Store.Tables.{Database, MediaPost, update_where}
use saral.Store.Rows.{length-update_where}

abbrev pub is_overdue : ℕ → ℕ → MediaPost → Bool
is_overdue hashtag_id threshold p =
    p.hashtag_id == hashtag_id && ltb p.last_seen_at threshold && not p.is_stale

abbrev pub flagged : ℕ → MediaPost → MediaPost
flagged now p = record p { is_stale = true; updated_at = now }

-- The database, and the number of rows that the statement returns.
unfoldable pub mark_stale_before : (now hashtag_id threshold : ℕ) → Database → Database × ℕ
mark_stale_before now hashtag_id threshold db = (
  record db {
    media_posts = update_where (is_overdue hashtag_id threshold) (flagged now) db.media_posts;
  },
  tally (is_overdue hashtag_id threshold) db.media_posts,
)

overdue-flagged :
    (now tag threshold : ℕ) (posts : List MediaPost)
    → tally (is_overdue tag threshold) (update_where (is_overdue tag threshold) (flagged now) posts)
      ≡ 0
overdue-flagged now tag threshold [] = refl
overdue-flagged now tag threshold (p ∷ ps) = ground (arith, overdue-flagged now tag threshold ps)

update_where-none :
    (now tag threshold : ℕ) (posts : List MediaPost)
    → tally (is_overdue tag threshold) posts ≡ 0
    → update_where (is_overdue tag threshold) (flagged now) posts ≡ posts
update_where-none now tag threshold [] h = refl
update_where-none now tag threshold (p ∷ ps) h =
    ground (arith, update_where-none now tag threshold ps)

-- Flagging the posts of a hashtag that were not seen since a time deletes none, and leaves none to
-- flag: a second call with the same time changes nothing and reports none.
pub mark_stale_before_again :
    (now later tag threshold : ℕ) (db : Database)
    → let (db1, n) = mark_stale_before now tag threshold db in
      (length db1.media_posts ≡ length db.media_posts)
      × (mark_stale_before later tag threshold db1 ≡ (db1, 0))
unfolding mark_stale_before
mark_stale_before_again now later tag threshold db =
    let p = is_overdue tag threshold in
    let none_left = overdue-flagged now tag threshold db.media_posts in
    (
      length-update_where p (flagged now) db.media_posts,
      rw
          (
            update_where-none later tag threshold (update_where p (flagged now) db.media_posts)
                none_left,
            none_left,
          )
          refl,
    )
