-- ===== src/Commands/Rows.antt =====
-- What an observation does to the rows of the curated layer, as a replay (commands/replay.ts) sees it.
use saral.Base.{
  ℕ, ◌≡◌, refl, ◌∙◌, sym, ap, inl, inr, false, some, List, [], ◌∷◌, ◌++◌, String, append-nil,
  append_assoc, find, All, Option-cases,
}
use mathlib.Core.Path.{subst}
use saral.Meta.Schema.{MetaMedia}
use saral.Store.Tables.{Database, MediaPost, MediaPostHistory, TrackedField}
use saral.Store.Media.{
  Observation, has_ig_id, has_run, new_post, refresh_post, upsert_post, new_history, record_history,
  upsert_observation,
}
use saral.Store.Posts.{IsUnique, upsert_observation-IsUnique, upsert_observation-Extends}

-- The post of an Instagram id stays, with its id, its time of publication and of first sight.
abbrev pub Keeps : List MediaPost → List MediaPost → Type 0
Keeps before after =
    (ig : String) (post : MediaPost)
    → find (has_ig_id ig) before ≡ some post
    → (post' : MediaPost) × (find (has_ig_id ig) after ≡ some post')
      × (post'.id ≡ post.id)
      × (post'.taken_at ≡ post.taken_at)
      × (post'.first_seen_at ≡ post.first_seen_at)

pub Keeps-refl : (posts : List MediaPost) → Keeps posts posts
Keeps-refl posts ig post h = (post, h, refl, refl, refl)

pub Keeps-trans : (p q r : List MediaPost) → Keeps p q → Keeps q r → Keeps p r
Keeps-trans p q r pq qr ig post h =
    let (post1, h1, a1, b1, c1) = pq ig post h in
    let (post2, h2, a2, b2, c2) = qr ig post1 h1 in (post2, h2, a2 ∙ a1, b2 ∙ b1, c2 ∙ c1)

pub upsert_observation-Keeps :
    (o : Observation) (db : Database)
    → IsUnique db.media_posts
    → Keeps db.media_posts (upsert_observation o db).0.media_posts
upsert_observation-Keeps o db unique ig post h =
    let (_, _, other) = upsert_observation-IsUnique o db ig unique in
    elim other [
      | inr same ↦ (post, same ∙ h, refl, refl, refl)
      | inl is_own ↦
          let (_, (after, there, e)) =
            upsert_observation-Extends o db post
              (subst (λ i. find (has_ig_id i) db.media_posts ≡ some post) (sym is_own) h) in
          (
            after,
            subst (λ i. find (has_ig_id i) (upsert_observation o db).0.media_posts ≡ some after)
                is_own there,
            e.same_id,
            e.same_taken_at,
            e.same_first_seen,
          )
    ]

-- A post shows what Meta returned: the caption, the URL of the media and the counts; and is not stale.
abbrev pub Shows : MetaMedia → MediaPost → Type 0
Shows media post =
    (post.caption ≡ media.caption)
    × (post.source_media_url ≡ media.media_url)
    × (post.like_count ≡ media.like_count)
    × (post.comments_count ≡ media.comments_count)
    × (post.is_stale ≡ false)

pub upsert_post-Shows :
    (o : Observation) (posts : List MediaPost) (drawn : ℕ)
    → Shows o.input.media (upsert_post o posts drawn).2
unfolding upsert_post refresh_post new_post
upsert_post-Shows o posts drawn = elim (Option-cases (find (has_ig_id o.input.media.id) posts)) [
  | inl new ↦ rw (new, upsert_post) (refl, refl, refl, refl, refl)
  | inr (post, known) ↦ rw (known, upsert_post) (refl, refl, refl, refl, refl)
]

-- Rows were added, of one run.
abbrev pub Appends : (run_id : ℕ) → List MediaPostHistory → List MediaPostHistory → Type 0
Appends run_id before after =
    (added : List MediaPostHistory) × (after ≡ before ++ added)
    × All (λ h. h.sync_run_id ≡ run_id) added

All-both : {A : Type 0} (P : A → Type 0) (xs ys : List A) → All P xs → All P ys → All P (xs ++ ys)
All-both P [] ys h k = k
All-both P (x ∷ xs) ys (here, h) k = (here, All-both P xs ys h k)

pub Appends-refl : (run_id : ℕ) (rows : List MediaPostHistory) → Appends run_id rows rows
Appends-refl run_id rows = ([], sym (append-nil rows), tt)

pub Appends-trans :
    (run_id : ℕ) (p q r : List MediaPostHistory)
    → Appends run_id p q
    → Appends run_id q r
    → Appends run_id p r
Appends-trans run_id p q r (a, e, fs) (b, f, gs) = (
  a ++ b,
  f ∙ ap (λ l. l ++ b) e ∙ append_assoc p a b,
  All-both (λ h. h.sync_run_id ≡ run_id) a b fs gs,
)

pub record_history-Appends :
    (o : Observation) (media_id : ℕ) (changed : List TrackedField) (rows : List MediaPostHistory)
    (drawn : ℕ)
    → Appends o.input.sync_run_id rows (record_history o media_id changed rows drawn).0
unfolding record_history new_history
record_history-Appends o media_id [] rows drawn = Appends-refl o.input.sync_run_id rows
record_history-Appends o media_id (c ∷ cs) rows drawn =
    elim (Option-cases (find (has_run media_id o.input.sync_run_id) rows)) [
      | inr (h, known) ↦ rw (known, record_history) (Appends-refl o.input.sync_run_id rows)
      | inl new ↦ rw (new, record_history) (_, refl, (refl, tt))
    ]
