-- ===== src/Store/Media.antt =====
-- upsertMedia of src/api/repositories/MediaRepository.ts. `Date` parsing and the caption parser are
-- arguments; the clock is read once, and the transaction is one function on the database.
use saral.Base.{
  ℕ, ◌+◌, min, Bool, true, false, not, ◌&&◌, ◌||◌, Option, none, some, List, [], ◌∷◌, ◌++◌, String,
  leb, ◌==◌, if◌then◌else◌, keep, find,
}
use text.Mathlib.Text.{◌==◌ as str_eq}
use saral.Jobs.{SyncKind, top, recent}
use saral.Meta.Schema.{MetaMedia, MediaType, image, video, carousel_album}
use saral.Store.Tables.{Database, MediaPost, MediaPostHistory, TrackedField, update_where}

pub record UpsertMediaInput : Type 0 where
  pub media : MetaMedia
  pub hashtag_id : ℕ
  pub sync_run_id : ℕ
  pub source : SyncKind
  pub rank : ℕ

pub record UpsertMediaResult : Type 0 where
  pub id : ℕ
  pub is_new : Bool
  pub content_changed : Bool
  pub history_recorded : Bool
  pub changed_fields : List TrackedField

-- What the arguments of `upsertMedia` come to before the transaction.
pub record Observation : Type 0 where
  pub input : UpsertMediaInput
  pub taken_at : ℕ
  pub now : ℕ
  pub caption_hashtags : List String
  pub caption_mentions : List String

abbrev pub is_top : SyncKind → Bool
is_top top = true
is_top recent = false

abbrev pub media_type_eq : MediaType → MediaType → Bool
media_type_eq image image = true
media_type_eq video video = true
media_type_eq carousel_album carousel_album = true
media_type_eq _ _ = false

abbrev pub opt_str_eq : Option String → Option String → Bool
opt_str_eq none none = true
opt_str_eq (some s) (some t) = str_eq s t
opt_str_eq _ _ = false

abbrev pub opt_eq : Option ℕ → Option ℕ → Bool
opt_eq none none = true
opt_eq (some m) (some n) = m == n
opt_eq _ _ = false

-- LEAST, which ignores NULL.
abbrev pub least : Option ℕ → ℕ → ℕ
least none n = n
least (some m) n = min m n

abbrev pub effective_rank : UpsertMediaInput → Option ℕ
effective_rank i = if is_top i.source then some i.rank else none

-- The VALUES of the insert.
unfoldable pub new_post : ℕ → Observation → MediaPost
new_post id o = record {
  id = id;
  ig_media_id = o.input.media.id;
  hashtag_id = o.input.hashtag_id;
  media_type = o.input.media.media_type;
  caption = o.input.media.caption;
  permalink = o.input.media.permalink;
  source_media_url = o.input.media.media_url;
  caption_hashtags = o.caption_hashtags;
  caption_mentions = o.caption_mentions;
  taken_at = o.taken_at;
  first_seen_at = o.now;
  last_seen_at = o.now;
  content_updated_at = none;
  like_count = o.input.media.like_count;
  comments_count = o.input.media.comments_count;
  metrics_updated_at = some o.now;
  first_seen_via = o.input.source;
  seen_in_top = is_top o.input.source;
  seen_in_recent = not (is_top o.input.source);
  best_top_rank = effective_rank o.input;
  is_stale = false;
  created_at = o.now;
  updated_at = o.now;
}

-- The row's durable content is not what Meta returned.
abbrev pub differs : MetaMedia → MediaPost → Bool
differs media post =
    not (opt_str_eq post.caption media.caption)
    || not (str_eq post.permalink media.permalink)
    || not (media_type_eq post.media_type media.media_type)

-- The SET of ON CONFLICT DO UPDATE.
unfoldable pub refresh_post : Observation → MediaPost → MediaPost
refresh_post o post = record post {
  caption = o.input.media.caption;
  source_media_url = o.input.media.media_url;
  caption_hashtags = o.caption_hashtags;
  caption_mentions = o.caption_mentions;
  like_count = o.input.media.like_count;
  comments_count = o.input.media.comments_count;
  metrics_updated_at = some o.now;
  last_seen_at = o.now;
  updated_at = o.now;
  seen_in_top = post.seen_in_top || is_top o.input.source;
  seen_in_recent = post.seen_in_recent || not (is_top o.input.source);
  best_top_rank =
      if is_top o.input.source
      then some (least post.best_top_rank o.input.rank)
      else post.best_top_rank;
  is_stale = false;
  content_updated_at = if differs o.input.media post then some o.now else post.content_updated_at;
}

abbrev pub has_ig_id : String → MediaPost → Bool
has_ig_id ig post = str_eq post.ig_media_id ig

-- INSERT … ON CONFLICT (ig_media_id) DO UPDATE … RETURNING: the rows, the drawn ids and the row.
unfoldable pub upsert_post : Observation → List MediaPost → ℕ → List MediaPost × ℕ × MediaPost
unfolding new_post refresh_post
upsert_post o posts drawn = elim (find (has_ig_id o.input.media.id) posts) [
  | none ↦ (posts ++ new_post drawn o ∷ [], drawn + 1, new_post drawn o)
  | some post ↦
      (update_where (has_ig_id o.input.media.id) (refresh_post o) posts, drawn, refresh_post o post)
]

-- ORDER BY captured_at DESC LIMIT 1 over the rows of one post; of equal times the last row.
unfoldable pub latest :
    ℕ → List MediaPostHistory → Option MediaPostHistory → Option MediaPostHistory
latest media_id [] best = best
latest media_id (h ∷ hs) none = latest media_id hs (if h.media_id == media_id then some h else none)
latest media_id (h ∷ hs) (some b) =
    latest media_id hs
      (if h.media_id == media_id && leb b.captured_at h.captured_at then some h else some b)

-- `previous[field] !== current[field]`.
abbrev pub field_changed : Observation → MediaPostHistory → TrackedField → Bool
field_changed o h TrackedField.like_count = not (opt_eq h.like_count o.input.media.like_count)
field_changed o h TrackedField.comments_count =
    not (opt_eq h.comments_count o.input.media.comments_count)
field_changed o h TrackedField.rank = not (opt_eq h.rank (effective_rank o.input))
field_changed o h TrackedField.caption = not (opt_str_eq h.caption o.input.media.caption)
field_changed o h TrackedField.permalink = not (str_eq h.permalink o.input.media.permalink)
field_changed o h TrackedField.media_type =
    not (media_type_eq h.media_type o.input.media.media_type)

abbrev pub tracked_fields : List TrackedField
tracked_fields =
    TrackedField.like_count ∷ TrackedField.comments_count ∷ TrackedField.rank ∷ TrackedField.caption
    ∷ TrackedField.permalink ∷ TrackedField.media_type ∷ []

unfoldable pub changed_fields : Observation → Option MediaPostHistory → List TrackedField
changed_fields o none = tracked_fields
changed_fields o (some h) = keep (field_changed o h) tracked_fields

unfoldable pub new_history : ℕ → ℕ → Observation → List TrackedField → MediaPostHistory
new_history id media_id o changed = record {
  id = id;
  media_id = media_id;
  hashtag_id = o.input.hashtag_id;
  sync_run_id = o.input.sync_run_id;
  ig_media_id = o.input.media.id;
  media_type = o.input.media.media_type;
  caption = o.input.media.caption;
  permalink = o.input.media.permalink;
  caption_hashtags = o.caption_hashtags;
  caption_mentions = o.caption_mentions;
  like_count = o.input.media.like_count;
  comments_count = o.input.media.comments_count;
  rank = effective_rank o.input;
  source = o.input.source;
  changed_fields = changed;
  captured_at = o.now;
}

abbrev pub has_run : ℕ → ℕ → MediaPostHistory → Bool
has_run media_id run_id h = h.media_id == media_id && h.sync_run_id == run_id

-- INSERT … ON CONFLICT (media_id, sync_run_id) DO NOTHING, where a field has changed: the rows, the
-- drawn ids and whether a row was written.
unfoldable pub record_history :
    Observation
    → ℕ
    → List TrackedField
    → List MediaPostHistory
    → ℕ
    → List MediaPostHistory × ℕ × Bool
unfolding new_history
record_history o media_id [] rows drawn = (rows, drawn, false)
record_history o media_id changed rows drawn =
    elim (find (has_run media_id o.input.sync_run_id) rows) [
      | some h ↦ (rows, drawn, false)
      | none ↦ (rows ++ new_history drawn media_id o changed ∷ [], drawn + 1, true)
    ]

-- The transaction.
unfoldable pub upsert_observation : Observation → Database → Database × UpsertMediaResult
upsert_observation o db =
    let (posts, drawn, row) = upsert_post o db.media_posts db.drawn in
    let is_new = row.first_seen_at == o.now in
    let changed = changed_fields o (latest row.id db.media_post_history none) in
    let (history, drawn', recorded) = record_history o row.id changed db.media_post_history drawn in
    (
      record db { media_posts = posts; media_post_history = history; drawn = drawn' },
      record {
        id = row.id;
        is_new = is_new;
        content_changed = not is_new && opt_eq row.content_updated_at (some o.now);
        history_recorded = recorded;
        changed_fields = changed;
      },
    )

-- `none` is the error of a timestamp that cannot be parsed.
unfoldable pub upsert_media :
    (parse_timestamp : String → Option ℕ)
    → (parse_caption_arrays : Option String → List String × List String) → (now : ℕ)
    → UpsertMediaInput
    → Database
    → Option (Database × UpsertMediaResult)
unfolding upsert_observation
upsert_media parse_timestamp parse_caption_arrays now input db =
    elim (parse_timestamp input.media.timestamp) [
      | none ↦ none
      | some taken_at ↦ some (
          upsert_observation
            (record {
              input = input;
              taken_at = taken_at;
              now = now;
              caption_hashtags = (parse_caption_arrays input.media.caption).0;
              caption_mentions = (parse_caption_arrays input.media.caption).1;
            })
            db)
    ]
