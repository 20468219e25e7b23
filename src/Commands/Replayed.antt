-- ===== src/Commands/Replayed.antt =====
-- What the replay of one stored payload does (commands/replay.ts).
use saral.Base.{
  ℕ, ◌+◌, ◌≡◌, refl, ◌∙◌, sym, ap, inl, inr, Bool, true, false, Option, none, some, String, length,
  find, Option-cases, arith, eq_iff,
}
use text.Mathlib.Text.{◌==◌ as str_eq}
use mathlib.Core.Path.{subst}
use saral.Meta.Schema.{MetaMedia, meta_media}
use saral.Meta.Payload.{media_json}
use saral.Meta.Timestamp.{parse_meta_timestamp}
use saral.Caption.Parser.{parse_caption_arrays}
use saral.Asset.Storage.{Attempt, got}
use saral.Store.Tables.{Database, SyncRun, DataPoint, MediaPost}
use saral.Store.Media.{Observation, has_ig_id, upsert_media, upsert_observation}
use saral.Store.Posts.{
  IsUnique, upsert_post-find, upsert_observation-IsUnique, upsert_observation-Extends,
}
use saral.Sync.State.{World, Runtime}
use saral.Sync.Items.{one_if}
use saral.Commands.Replay.{
  ReplayCount, ReplayError, count_invalid, count_upsert, replay_media, replay_payload,
}
use saral.Commands.Rows.{
  Keeps, Keeps-refl, upsert_observation-Keeps, Shows, upsert_post-Shows, Appends, Appends-refl,
  record_history-Appends,
}

module _ {W : Type 0} (rt : Runtime W) where
  -- What the schema makes of a stored payload.
  abbrev pub shown : DataPoint → Option MetaMedia
  shown p = meta_media rt.is_url (media_json p.payload)

  abbrev pub is_accepted : DataPoint → Bool
  is_accepted p = elim (shown p) [ none ↦ false | some media ↦ true ]

  abbrev pub is_refused : DataPoint → Bool
  is_refused p = elim (shown p) [ none ↦ true | some media ↦ false ]

  -- The payload is accepted, as that of a post.
  abbrev pub shows_id : String → DataPoint → Bool
  shows_id ig p = elim (shown p) [ none ↦ false | some media ↦ str_eq media.id ig ]

  -- The time of what the schema accepts can be parsed.
  abbrev pub IsReadable : DataPoint → Type 0
  IsReadable p =
      (media : MetaMedia)
      → shown p ≡ some media
      → (at : ℕ) × (parse_meta_timestamp rt.parse_date media.timestamp ≡ some at)

  -- Everything but the curated layer, its drawn ids and the clock.
  pub record SameElse (s s' : World W) : Type 0 where
    pub same_hashtags : s'.db.hashtags ≡ s.db.hashtags
    pub same_runs : s'.db.sync_runs ≡ s.db.sync_runs
    pub same_payloads : s'.db.data_points ≡ s.db.data_points
    pub same_assets : s'.db.media_assets ≡ s.db.media_assets
    pub same_queue : s'.queue ≡ s.queue
    pub same_client : s'.client ≡ s.client
    pub same_locks : s'.locks ≡ s.locks

  curated_only :
      (o : Observation) (s : World W) (outside : W)
      → SameElse s (record s { outside = outside; db = (upsert_observation o s.db).0 })
  unfolding upsert_observation
  curated_only o s outside = record {
    same_hashtags = refl;
    same_runs = refl;
    same_payloads = refl;
    same_assets = refl;
    same_queue = refl;
    same_client = refl;
    same_locks = refl;
  }

  pub SameElse-refl : (s : World W) → SameElse s s
  SameElse-refl s = record {
    same_hashtags = refl;
    same_runs = refl;
    same_payloads = refl;
    same_assets = refl;
    same_queue = refl;
    same_client = refl;
    same_locks = refl;
  }

  pub SameElse-trans : (s t u : World W) → SameElse s t → SameElse t u → SameElse s u
  SameElse-trans s t u a b = record {
    same_hashtags = b.same_hashtags ∙ a.same_hashtags;
    same_runs = b.same_runs ∙ a.same_runs;
    same_payloads = b.same_payloads ∙ a.same_payloads;
    same_assets = b.same_assets ∙ a.same_assets;
    same_queue = b.same_queue ∙ a.same_queue;
    same_client = b.same_client ∙ a.same_client;
    same_locks = b.same_locks ∙ a.same_locks;
  }

  module _ (run : SyncRun) where
    -- What one payload does to the world.
    pub record Replayed (p : DataPoint) (n : ReplayCount) (s s' : World W)
        (r : Attempt ReplayCount ReplayError) : Type 0 where
      pub counted :
          (n' : ReplayCount) × (r ≡ got n')
          × (n'.reprocessed ≡ n.reprocessed + one_if (is_accepted p))
          × (n'.invalid ≡ n.invalid + one_if (is_refused p))
      pub posted :
          (media : MetaMedia)
          → shown p ≡ some media
          → (post : MediaPost) × (find (has_ig_id media.id) s'.db.media_posts ≡ some post)
            × Shows media post
      pub others :
          (ig : String)
          → shows_id ig p ≡ false
          → find (has_ig_id ig) s'.db.media_posts ≡ find (has_ig_id ig) s.db.media_posts
      pub keeps : Keeps s.db.media_posts s'.db.media_posts
      pub unique : IsUnique s'.db.media_posts
      pub else_same : SameElse s s'
      pub appends : Appends run.id s.db.media_post_history s'.db.media_post_history

    -- The observation of an accepted payload, at the clock's time.
    abbrev observed : DataPoint → MetaMedia → (at : ℕ) → World W → Observation
    observed p media at s =
        let arrays = parse_caption_arrays rt.in_word rt.to_lower_case media.caption in
        record {
          input = record {
            media = media;
            hashtag_id = p.hashtag_id;
            sync_run_id = run.id;
            source = run.type;
            rank = p.position_overall + 1;
          };
          taken_at = at;
          now = (rt.clock s.outside).1;
          caption_hashtags = arrays.0;
          caption_mentions = arrays.1;
        }

    replay_payload-observed :
        (p : DataPoint) (n : ReplayCount) (s : World W) (media : MetaMedia) (at : ℕ)
        → shown p ≡ some media
        → parse_meta_timestamp rt.parse_date media.timestamp ≡ some at
        → let (db, r) = upsert_observation (observed p media at s) s.db in
          replay_payload rt run p n s
          ≡ (record s { outside = (rt.clock s.outside).0; db = db }, got (count_upsert r n))
    unfolding replay_payload replay_media upsert_media
    replay_payload-observed p n s media at accepted parsed =
        rw (accepted, replay_payload, parsed, replay_media) refl

    upsert-Appends :
        (o : Observation) (db : Database)
        → Appends o.input.sync_run_id db.media_post_history
            (upsert_observation o db).0.media_post_history
    unfolding upsert_observation
    upsert-Appends o db = record_history-Appends o _ _ db.media_post_history _

    upsert-Shows :
        (o : Observation) (db : Database)
        → (post : MediaPost) × (find
              (has_ig_id o.input.media.id)
              (upsert_observation o db).0.media_posts
            ≡ some post)
          × Shows o.input.media post
    unfolding upsert_observation
    upsert-Shows o db =
        (_, upsert_post-find o db.media_posts db.drawn, upsert_post-Shows o db.media_posts db.drawn)

    pub replay_payload-Replayed :
        (p : DataPoint) (n : ReplayCount) (s : World W)
        → IsReadable p
        → IsUnique s.db.media_posts
        → let o = replay_payload rt run p n s in Replayed p n s o.0 o.1
    unfolding replay_payload
    replay_payload-Replayed p n s readable unique = elim (Option-cases (shown p)) [
      | inl refused ↦
          let same : replay_payload rt run p n s ≡ (s, got (count_invalid n)) =
            rw (refused, replay_payload) refl in
          let not_in : is_accepted p ≡ false = rw (refused, is_accepted) refl in
          let out : is_refused p ≡ true = rw (refused, is_refused) refl in
          rw same (record {
            counted = (
              count_invalid n,
              refl,
              omega (arith, ap one_if not_in),
              omega (arith, ap one_if out),
            );
            posted = λ media e. let no : none ≡ some media = sym refused ∙ e in cc;
            others = λ ig h. refl;
            keeps = Keeps-refl s.db.media_posts;
            unique = unique;
            else_same = SameElse-refl s;
            appends = Appends-refl run.id s.db.media_post_history;
          })
      | inr (media, accepted) ↦
          let (at, parsed) = readable media accepted in
          let o = observed p media at s in
          let is_in : is_accepted p ≡ true = rw (accepted, is_accepted) refl in
          let not_out : is_refused p ≡ false = rw (accepted, is_refused) refl in
          let (unique', _, _) = upsert_observation-IsUnique o s.db media.id unique in
          subst (λ x. Replayed p n s x.0 x.1)
            (sym (replay_payload-observed p n s media at accepted parsed))
            (record {
              counted = (_, refl, omega (arith, ap one_if is_in), omega (arith, ap one_if not_out));
              posted = λ other e.
                  let same : media ≡ other = cc in
                  subst
                    (λ k.
                      (post : MediaPost) × (find (has_ig_id k.id)
                          (upsert_observation o s.db).0.media_posts
                        ≡ some post)
                      × Shows k post)
                    same (upsert-Shows o s.db);
              others = λ ig h.
                  let not_it : str_eq media.id ig ≡ false = rw (accepted, shows_id) at h in
                  let (_, _, other) = upsert_observation-IsUnique o s.db ig unique in
                  elim other [
                    | inr same ↦ same
                    | inl is_it ↦
                        let it : str_eq media.id ig ≡ true = (eq_iff media.id ig).1 is_it in cc
                  ];
              keeps = upsert_observation-Keeps o s.db unique;
              unique = unique';
              else_same = curated_only o s (rt.clock s.outside).0;
              appends = upsert-Appends o s.db;
            })
    ]

    pub replay_payload-length :
        (p : DataPoint) (n : ReplayCount) (s : World W)
        → IsReadable p
        → ((media : MetaMedia)
            → shown p ≡ some media
            → (post : MediaPost) × (find (has_ig_id media.id) s.db.media_posts ≡ some post))
        → length (replay_payload rt run p n s).0.db.media_posts ≡ length s.db.media_posts
    unfolding replay_payload
    replay_payload-length p n s readable known = elim (Option-cases (shown p)) [
      | inl refused ↦ rw (refused, replay_payload) refl
      | inr (media, accepted) ↦
          let (at, parsed) = readable media accepted in
          let (post, there) = known media accepted in
          subst (λ x. length x.0.db.media_posts ≡ length s.db.media_posts)
            (sym (replay_payload-observed p n s media at accepted parsed))
            (upsert_observation-Extends (observed p media at s) s.db post there).0
    ]
