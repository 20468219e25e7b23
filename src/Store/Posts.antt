-- ===== src/Store/Posts.antt =====
-- The curated layer under upsertMedia (src/api/repositories/MediaRepository.ts): one row for each
-- Instagram id, and what never goes back.
use saral.Base.{
  ℕ, ◌+◌, ◌≤◌, ◌<◌, ◌≡◌, refl, ◌≢◌, ◌⊎◌, inl, inr, true, false, Option, none, some, List, [], ◌∷◌,
  String, arith, length, find, tally, tally-append, Bool-cases, Option-cases, eq_iff, eq_refl,
}
use text.Mathlib.Text.{◌==◌ as str_eq}
use mathlib.Core.Path.{subst}
use saral.Store.Tables.{Database, MediaPost}
use saral.Store.Rows.{
  tally_of_none, length-update_where, find-append, find-append_other, tally-update_where,
  find-update_where_other, find-update_where,
}
use saral.Store.Media.{
  Observation, has_ig_id, new_post, refresh_post, upsert_post, upsert_observation,
}

-- UNIQUE (ig_media_id).
abbrev pub IsUnique : List MediaPost → Type 0
IsUnique posts = (ig : String) → tally (has_ig_id ig) posts ≤ 1

refresh-ig :
    (o : Observation) (ig : String) (post : MediaPost)
    → has_ig_id ig (refresh_post o post) ≡ has_ig_id ig post
unfolding refresh_post
refresh-ig o ig post = refl

-- The row of an Instagram id after the statement is the row that it returns.
pub upsert_post-find :
    (o : Observation) (posts : List MediaPost) (drawn : ℕ)
    → find (has_ig_id o.input.media.id) (upsert_post o posts drawn).0
      ≡ some (upsert_post o posts drawn).2
unfolding upsert_post
upsert_post-find o posts drawn =
    let p = has_ig_id o.input.media.id in
    elim (Option-cases (find p posts)) [
      | inl absent ↦
          rw (absent, upsert_post)
            (find-append p posts (new_post drawn o) absent (unfold new_post in eq_refl _))
      | inr (post, there) ↦
          rw (there, upsert_post)
            (find-update_where p (refresh_post o) (refresh-ig o o.input.media.id) posts post there)
    ]

upsert_post-other :
    (o : Observation) (posts : List MediaPost) (drawn : ℕ) (ig : String)
    → o.input.media.id ≢ ig
    → find (has_ig_id ig) (upsert_post o posts drawn).0 ≡ find (has_ig_id ig) posts
unfolding upsert_post
upsert_post-other o posts drawn ig ne =
    let p = has_ig_id o.input.media.id in
    let q = has_ig_id ig in
    elim (Option-cases (find p posts)) [
      | inl absent ↦
          rw (absent, upsert_post)
            (find-append_other q posts (new_post drawn o)
              (unfold new_post in ground (arith, eq_iff o.input.media.id ig)))
      | inr (post, there) ↦
          rw (there, upsert_post)
            (find-update_where_other p q (refresh_post o) (refresh-ig o ig)
              (λ x h.
                ground (arith, eq_iff x.ig_media_id ig, eq_iff x.ig_media_id o.input.media.id))
              posts)
    ]

upsert_post-IsUnique :
    (o : Observation) (posts : List MediaPost) (drawn : ℕ)
    → IsUnique posts
    → IsUnique (upsert_post o posts drawn).0
unfolding upsert_post
upsert_post-IsUnique o posts drawn unique ig =
    let p = has_ig_id o.input.media.id in
    let q = has_ig_id ig in
    elim (Option-cases (find p posts)) [
      | inl absent ↦
          let counted = tally-append q posts (new_post drawn o ∷ []) in
          rw (absent, upsert_post) (rw counted (created (unique ig) (tally_of_none p posts absent)))
      | inr (post, there) ↦
          rw (there, upsert_post)
            (rw (tally-update_where p q (refresh_post o) (refresh-ig o ig) posts) (unique ig))
    ]
  where
    created :
        tally (has_ig_id ig) posts ≤ 1
        → tally (has_ig_id o.input.media.id) posts ≡ 0
        → tally (has_ig_id ig) posts + tally (has_ig_id ig) (new_post drawn o ∷ []) ≤ 1
    created le none_there = elim (Bool-cases (str_eq o.input.media.id ig)) [
      | inl same ↦
          let zero : tally (has_ig_id ig) posts ≡ 0 =
            subst (λ s. tally (has_ig_id s) posts ≡ 0) ((eq_iff _ _).0 same) none_there in
          unfold new_post in ground arith
      | inr other ↦ unfold new_post in ground arith
    ]

-- One transaction on a table with unique Instagram ids keeps them unique, leaves a row with the
-- returned id for the observed post, and changes the row of no other Instagram id.
pub upsert_observation-IsUnique :
    (o : Observation) (db : Database) (ig : String)
    → IsUnique db.media_posts
    → let (db', r) = upsert_observation o db in
      IsUnique db'.media_posts
      × ((post : MediaPost) × (find (has_ig_id o.input.media.id) db'.media_posts ≡ some post)
          × (post.id ≡ r.id))
      × ((o.input.media.id ≡ ig)
          ⊎ (find (has_ig_id ig) db'.media_posts ≡ find (has_ig_id ig) db.media_posts))
unfolding upsert_observation
upsert_observation-IsUnique o db ig unique = (
  upsert_post-IsUnique o db.media_posts db.drawn unique,
  (_, upsert_post-find o db.media_posts db.drawn, refl),
  elim (Bool-cases (str_eq o.input.media.id ig)) [
    | inl same ↦ inl ((eq_iff _ _).0 same)
    | inr other ↦ inr (
        upsert_post-other o db.media_posts db.drawn ig
          (λ e. ground (arith, eq_iff o.input.media.id ig)))
  ],
)

-- The row of the observed post before and after a transaction that finds it.
pub upsert_post-refresh :
    (o : Observation) (posts : List MediaPost) (drawn : ℕ) (post : MediaPost)
    → find (has_ig_id o.input.media.id) posts ≡ some post
    → ((upsert_post o posts drawn).2 ≡ refresh_post o post)
      × ((upsert_post o posts drawn).1 ≡ drawn)
unfolding upsert_post
upsert_post-refresh o posts drawn post there = ground arith

pub upsert_post-length :
    (o : Observation) (posts : List MediaPost) (drawn : ℕ) (post : MediaPost)
    → find (has_ig_id o.input.media.id) posts ≡ some post
    → length (upsert_post o posts drawn).0 ≡ length posts
unfolding upsert_post
upsert_post-length o posts drawn post there =
    ground (arith, length-update_where (has_ig_id o.input.media.id) (refresh_post o) posts)

abbrev pub RankLe : Option ℕ → Option ℕ → Type 0
RankLe m none = Unit
RankLe none (some n) = ⊥
RankLe (some m) (some n) = m ≤ n

-- What a sighting never takes back.
pub record Extends (before after : MediaPost) : Type 0 where
  pub same_id : after.id ≡ before.id
  pub same_first_seen : after.first_seen_at ≡ before.first_seen_at
  pub same_taken_at : after.taken_at ≡ before.taken_at
  pub same_via : after.first_seen_via ≡ before.first_seen_via
  pub top_sticks : (before.seen_in_top ≡ false) ⊎ (after.seen_in_top ≡ true)
  pub recent_sticks : (before.seen_in_recent ≡ false) ⊎ (after.seen_in_recent ≡ true)
  pub rank_improves : RankLe after.best_top_rank before.best_top_rank
  pub not_stale : after.is_stale ≡ false

refresh-Extends : (o : Observation) (post : MediaPost) → Extends post (refresh_post o post)
unfolding refresh_post
refresh-Extends o post = ground arith

-- A post that is seen again keeps its id, its time of first sight, its time of publication and the
-- edge that found it; the flags of the edges that it was seen in stay set, its best rank only
-- falls, the stale flag is cleared, and no row is added.
pub upsert_observation-Extends :
    (o : Observation) (db : Database) (post : MediaPost)
    → find (has_ig_id o.input.media.id) db.media_posts ≡ some post
    → let db' = (upsert_observation o db).0 in
      (length db'.media_posts ≡ length db.media_posts)
      × ((after : MediaPost) × (find (has_ig_id o.input.media.id) db'.media_posts ≡ some after)
          × Extends post after)
unfolding upsert_observation
upsert_observation-Extends o db post there =
    let found = upsert_post-find o db.media_posts db.drawn in
    let (row, _) = upsert_post-refresh o db.media_posts db.drawn post there in
    (
      upsert_post-length o db.media_posts db.drawn post there,
      (refresh_post o post, rw row at found, refresh-Extends o post),
    )

-- The statement does not write the permalink of a post that it finds. So a post that was first
-- seen earlier, and whose permalink Meta now gives differently, is reported as edited, and its
-- row still holds the old permalink and time of first sight, so that the same holds of every
-- later sighting with the new one.
pub permalink_never_settles :
    (o : Observation) (db : Database) (post : MediaPost)
    → find (has_ig_id o.input.media.id) db.media_posts ≡ some post
    → post.permalink ≢ o.input.media.permalink
    → post.first_seen_at < o.now
    → let (db', r) = upsert_observation o db in
      (r.content_changed ≡ true)
      × (r.is_new ≡ false)
      × ((after : MediaPost) × (find (has_ig_id o.input.media.id) db'.media_posts ≡ some after)
          × (after.permalink ≢ o.input.media.permalink)
          × (after.first_seen_at ≡ post.first_seen_at))
unfolding upsert_observation
permalink_never_settles o db post there moved old =
    let found = upsert_post-find o db.media_posts db.drawn in
    let (row, _) = upsert_post-refresh o db.media_posts db.drawn post there in
    let link = eq_iff post.permalink o.input.media.permalink in
    (
      unfold refresh_post in ground (arith, row, link),
      unfold refresh_post in ground (arith, row),
      (
        refresh_post o post,
        rw row at found,
        unfold refresh_post in moved,
        unfold refresh_post in refl,
      ),
    )
