-- ===== src/Commands/Replaying.antt =====
-- A replay (commands/replay.ts): the posts and the counters that it leaves, for every payload that its
-- run recorded, and what a second replay does.
use saral.Base.{
  ℕ, ◌+◌, ◌≤◌, keep, ◌≡◌, refl, ◌∙◌, sym, ap, inl, inr, Bool, true, false, ◌||◌, some, List, [],
  ◌∷◌, String, arith, length, find, All, Bool-cases,
}
use mathlib.Core.Path.{subst}
use saral.Meta.Schema.{MetaMedia}
use saral.Asset.Storage.{Attempt, got}
use saral.Store.Tables.{SyncRun, DataPoint, MediaPost}
use saral.Store.Media.{has_ig_id}
use saral.Store.Posts.{IsUnique}
use saral.Store.Runs.{has_id, find_run}
use saral.Store.Reads.{order_by, earlier_position, of_run, find_by_run_id}
use saral.Sync.State.{World, Runtime}
use saral.Sync.Items.{one_if}
use saral.Commands.Replay.{
  ReplayCount, ReplayError, no_count, replay_payload, replay_payloads, replay_found as replay_list,
  replay,
}
use saral.Commands.Rows.{
  Keeps, Keeps-refl, Keeps-trans, Shows, Appends, Appends-refl, Appends-trans,
}
use saral.Commands.Replayed.{
  shown, is_accepted, is_refused, shows_id, IsReadable, SameElse, SameElse-refl, SameElse-trans,
  replay_payload-Replayed, replay_payload-length,
}

module _ {W : Type 0} (rt : Runtime W) where
  -- One of the payloads is accepted as that of this post.
  abbrev pub names : String → List DataPoint → Bool
  names ig [] = false
  names ig (p ∷ ps) = shows_id rt ig p || names ig ps

  -- Each payload that the schema accepts, and that none behind it follows with the same post, is what
  -- its post shows.
  abbrev pub Rebuilt : List DataPoint → List MediaPost → Type 0
  Rebuilt [] posts = Unit
  Rebuilt (p ∷ ps) posts =
      ((media : MetaMedia)
        → shown rt p ≡ some media
        → names media.id ps ≡ false
        → (post : MediaPost) × (find (has_ig_id media.id) posts ≡ some post) × Shows media post)
      × Rebuilt ps posts

  -- There is a post for each payload that the schema accepts.
  abbrev IsPosted : List MediaPost → DataPoint → Type 0
  IsPosted posts p =
      (media : MetaMedia)
      → shown rt p ≡ some media
      → (post : MediaPost) × (find (has_ig_id media.id) posts ≡ some post)

  count_step :
      (p : DataPoint) (ps : List DataPoint) (f : DataPoint → Bool)
      → length (keep f (p ∷ ps)) ≡ one_if (f p) + length (keep f ps)
  count_step p ps f = elim (Bool-cases (f p)) [
    | inl counts ↦ rw counts (omega arith)
    | inr skips ↦ rw skips (omega arith)
  ]

  module _ (run : SyncRun) where
    -- What a list of payloads does to the world.
    record ReplayedAll (ps : List DataPoint) (n : ReplayCount) (s s' : World W)
        (r : Attempt ReplayCount ReplayError) : Type 0 where
      all_counted :
          (n' : ReplayCount) × (r ≡ got n')
          × (n'.reprocessed ≡ n.reprocessed + length (keep (is_accepted rt) ps))
          × (n'.invalid ≡ n.invalid + length (keep (is_refused rt) ps))
      all_rebuilt : Rebuilt ps s'.db.media_posts
      all_posted : All (IsPosted s'.db.media_posts) ps
      all_others :
          (ig : String)
          → names ig ps ≡ false
          → find (has_ig_id ig) s'.db.media_posts ≡ find (has_ig_id ig) s.db.media_posts
      all_kept : Keeps s.db.media_posts s'.db.media_posts
      all_unique : IsUnique s'.db.media_posts
      all_else : SameElse rt s s'
      all_appends : Appends run.id s.db.media_post_history s'.db.media_post_history

    or_false : (a b : Bool) → (a || b) ≡ false → (a ≡ false) × (b ≡ false)
    or_false true b h = cc
    or_false false b h = (refl, h)

    replay_payloads-ReplayedAll :
        (ps : List DataPoint) (n : ReplayCount) (s : World W)
        → All (IsReadable rt) ps
        → IsUnique s.db.media_posts
        → let o = replay_payloads rt run ps n s in ReplayedAll ps n s o.0 o.1
    unfolding replay_payloads
    replay_payloads-ReplayedAll [] n s readable unique = record {
      all_counted = (n, refl, omega arith, omega arith);
      all_rebuilt = tt;
      all_posted = tt;
      all_others = λ ig h. refl;
      all_kept = Keeps-refl s.db.media_posts;
      all_unique = unique;
      all_else = SameElse-refl rt s;
      all_appends = Appends-refl run.id s.db.media_post_history;
    }
    replay_payloads-ReplayedAll (p ∷ ps) n s (here, readable) unique =
        let s1 = (replay_payload rt run p n s).0 in
        let first = replay_payload-Replayed rt run p n s here unique in
        let (n1, ok, more, refused) = first.counted in
        let s2 = (replay_payloads rt run ps n1 s1).0 in
        let rest = replay_payloads-ReplayedAll ps n1 s1 readable first.unique in
        let (n2, ok2, more2, refused2) = rest.all_counted in
        rw (ok, replay_payloads)
          (record {
            all_counted = (
              n2,
              ok2,
              omega (arith, more, more2, count_step p ps (is_accepted rt)),
              omega (arith, refused, refused2, count_step p ps (is_refused rt)),
            );
            all_rebuilt = (
              λ media accepted last.
                  let (post, there, like) = first.posted media accepted in
                  (post, rest.all_others media.id last ∙ there, like),
              rest.all_rebuilt,
            );
            all_posted = (
              λ media accepted.
                  let (post, there, _) = first.posted media accepted in
                  let (post2, there2, _, _, _) = rest.all_kept media.id post there in
                  (post2, there2),
              rest.all_posted,
            );
            all_others = λ ig h.
                let (a, b) = or_false (shows_id rt ig p) (names ig ps) h in
                rest.all_others ig b ∙ first.others ig a;
            all_kept =
                Keeps-trans s.db.media_posts s1.db.media_posts s2.db.media_posts first.keeps
                  rest.all_kept;
            all_unique = rest.all_unique;
            all_else = SameElse-trans rt s s1 s2 first.else_same rest.all_else;
            all_appends =
                Appends-trans run.id s.db.media_post_history s1.db.media_post_history
                  s2.db.media_post_history first.appends rest.all_appends;
          })

    All-IsPosted-Keeps :
        (before after : List MediaPost)
        → Keeps before after
        → (ps : List DataPoint) → All (IsPosted before) ps
        → All (IsPosted after) ps
    All-IsPosted-Keeps before after keeps [] h = tt
    All-IsPosted-Keeps before after keeps (p ∷ ps) (here, h) = (
      λ media accepted.
          let (post, there) = here media accepted in
          let (post', there', _, _, _) = keeps media.id post there in (post', there'),
      All-IsPosted-Keeps before after keeps ps h,
    )

    -- Payloads whose posts are there add none.
    replay_payloads-length :
        (ps : List DataPoint) (n : ReplayCount) (s : World W)
        → All (IsReadable rt) ps
        → IsUnique s.db.media_posts
        → All (IsPosted s.db.media_posts) ps
        → length (replay_payloads rt run ps n s).0.db.media_posts ≡ length s.db.media_posts
    unfolding replay_payloads
    replay_payloads-length [] n s readable unique posted = refl
    replay_payloads-length (p ∷ ps) n s (here, readable) unique (known, posted) =
        let s1 = (replay_payload rt run p n s).0 in
        let first = replay_payload-Replayed rt run p n s here unique in
        let (n1, ok, _, _) = first.counted in
        rw (ok, replay_payloads)
          (replay_payloads-length ps n1 s1 readable first.unique
              (All-IsPosted-Keeps s.db.media_posts s1.db.media_posts first.keeps ps posted)
            ∙ replay_payload-length rt run p n s here known)

  replay_of_found :
      (run_id : ℕ) (run : SyncRun) (s : World W)
      → find_run run_id s.db ≡ some run
      → 1 ≤ length (find_by_run_id run_id s.db)
      → replay rt run_id s ≡ replay_payloads rt run (find_by_run_id run_id s.db) no_count s
  unfolding replay
  replay_of_found run_id run s there some_rows =
      rw (there, replay) (from (find_by_run_id run_id s.db) some_rows)
    where
      from :
          (ps : List DataPoint)
          → 1 ≤ length ps
          → replay_list rt run ps s ≡ replay_payloads rt run ps no_count s
      from [] h = ground arith
      from (p ∷ ps) h = refl

  -- Let a run have recorded payloads, let the time of those that the schema of Meta still accepts be
  -- readable, and let the posts have unique Instagram ids. Its replay counts the payloads that the schema
  -- accepts as reprocessed and those that it refuses as invalid. The post of an accepted payload is
  -- there, and shows the caption, the media URL and the counts of the last accepted one of that post; a
  -- post that no accepted payload names is as it was; and one that was there keeps its id, its time of
  -- publication and of first sight. History rows are only added, as rows of this run. The hashtags, runs,
  -- payloads, assets, the queue, the locks and the client of Meta are as they were, and a second
  -- replay adds no post.
  pub replay_rebuilds :
      (run_id : ℕ) (run : SyncRun) (s : World W)
      → find_run run_id s.db ≡ some run
      → 1 ≤ length (find_by_run_id run_id s.db)
      → All (IsReadable rt) (find_by_run_id run_id s.db)
      → IsUnique s.db.media_posts
      → let payloads = find_by_run_id run_id s.db in
        let (s1, r) = replay rt run_id s in
        let (s2, r2) = replay rt run_id s1 in
        ((n : ReplayCount) × (r ≡ got n)
          × (n.reprocessed ≡ length (keep (is_accepted rt) payloads))
          × (n.invalid ≡ length (keep (is_refused rt) payloads)))
        × Rebuilt payloads s1.db.media_posts
        × ((ig : String)
            → names ig payloads ≡ false
            → find (has_ig_id ig) s1.db.media_posts ≡ find (has_ig_id ig) s.db.media_posts)
        × Keeps s.db.media_posts s1.db.media_posts
        × Appends run.id s.db.media_post_history s1.db.media_post_history
        × SameElse rt s s1
        × (length s2.db.media_posts ≡ length s1.db.media_posts)
  unfolding find_by_run_id
  replay_rebuilds run_id run s there some_rows readable unique =
      let ps = find_by_run_id run_id s.db in
      let s1 = (replay_payloads rt run ps no_count s).0 in
      let all = replay_payloads-ReplayedAll run ps no_count s readable unique in
      let (n, ok, done, refused) = all.all_counted in
      let same_ps : find_by_run_id run_id s1.db ≡ ps =
        ap (λ rows. order_by earlier_position (keep (of_run run_id) rows))
          all.all_else.same_payloads in
      let there1 : find_run run_id s1.db ≡ some run =
        ap (λ rows. find (has_id run_id) rows) all.all_else.same_runs ∙ there in
      let again =
        replay_of_found run_id run s1 there1 (subst (λ l. 1 ≤ length l) (sym same_ps) some_rows)
        ∙ ap (λ l. replay_payloads rt run l no_count s1) same_ps in
      rw (replay_of_found run_id run s there some_rows, again)
        (
          (n, ok, omega (arith, done), omega (arith, refused)),
          all.all_rebuilt,
          all.all_others,
          all.all_kept,
          all.all_appends,
          all.all_else,
          replay_payloads-length run ps no_count s1 readable all.all_unique all.all_posted,
        )
