-- ===== src/Store/History.antt =====
-- The append-only history under upsertMedia (src/api/repositories/MediaRepository.ts).
use saral.Base.{
  ℕ, ◌+◌, ◌≤◌, ◌≡◌, refl, ◌⊎◌, inl, inr, false, ◌&&◌, Option, none, some, List, [], ◌∷◌, arith,
  ◌==◌, length, find, tally, tally-append, Bool-cases, Option-cases, ap, ◌∙◌,
}
use mathlib.Core.Path.{subst₂}
use saral.Store.Tables.{Database, MediaPostHistory, TrackedField}
use saral.Store.Rows.{tally_of_none, find-append}
use saral.Store.Media.{
  Observation, has_run, latest, changed_fields, new_history, record_history, upsert_post,
  upsert_observation, refresh_post,
}
use saral.Store.Posts.{upsert_post-find, upsert_post-refresh, upsert_post-length}

-- UNIQUE (media_id, sync_run_id).
abbrev pub IsOnce : List MediaPostHistory → Type 0
IsOnce rows = (media_id run_id : ℕ) → tally (has_run media_id run_id) rows ≤ 1

record_history_found :
    (o : Observation) (media_id : ℕ) (changed : List TrackedField) (rows : List MediaPostHistory)
    (drawn : ℕ) (h : MediaPostHistory)
    → find (has_run media_id o.input.sync_run_id) rows ≡ some h
    → record_history o media_id changed rows drawn ≡ (rows, drawn, false)
unfolding record_history
record_history_found o media_id [] rows drawn h there = refl
record_history_found o media_id (f ∷ fs) rows drawn h there = rw (there, record_history)

-- After the insert there is a row of this run, or nothing had changed and nothing was written.
record_history-find :
    (o : Observation) (media_id : ℕ) (changed : List TrackedField) (rows : List MediaPostHistory)
    (drawn : ℕ)
    → ((changed ≡ []) × (record_history o media_id changed rows drawn ≡ (rows, drawn, false)))
      ⊎ ((h : MediaPostHistory) × (find
              (has_run media_id o.input.sync_run_id)
              (record_history o media_id changed rows drawn).0
            ≡ some h))
unfolding record_history
record_history-find o media_id [] rows drawn = inl (refl, refl)
record_history-find o media_id (f ∷ fs) rows drawn =
    let p = has_run media_id o.input.sync_run_id in
    elim (Option-cases (find p rows)) [
      | inl absent ↦ inr (
        new_history drawn media_id o (f ∷ fs),
        rw (absent, record_history)
            (find-append p rows (new_history drawn media_id o (f ∷ fs)) absent
              (unfold new_history in ground arith)),
      )
      | inr (h, there) ↦ inr (h, rw (there, record_history) there)
    ]

record_history-IsOnce :
    (o : Observation) (media_id : ℕ) (changed : List TrackedField) (rows : List MediaPostHistory)
    (drawn : ℕ)
    → IsOnce rows
    → IsOnce (record_history o media_id changed rows drawn).0
unfolding record_history
record_history-IsOnce o media_id [] rows drawn once = once
record_history-IsOnce o media_id (f ∷ fs) rows drawn once =
    let p = has_run media_id o.input.sync_run_id in
    elim (Option-cases (find p rows)) [
      | inl absent ↦ λ m r.
          let row = new_history drawn media_id o (f ∷ fs) in
          let counted = tally-append (has_run m r) rows (row ∷ []) in
          rw (absent, record_history)
            (rw counted (added m r (once m r) (tally_of_none p rows absent)))
      | inr (h, there) ↦ λ m r. rw (there, record_history) (once m r)
    ]
  where
    added :
        (m r : ℕ)
        → tally (has_run m r) rows ≤ 1
        → tally (has_run media_id o.input.sync_run_id) rows ≡ 0
        → tally (has_run m r) rows
            + tally (has_run m r) (new_history drawn media_id o (f ∷ fs) ∷ [])
          ≤ 1
    added m r le zero = elim (Bool-cases (media_id == m && o.input.sync_run_id == r)) [
      | inl same ↦
          let media : media_id ≡ m = ground arith in
          let run : o.input.sync_run_id ≡ r = ground arith in
          let none_here : tally (has_run m r) rows ≡ 0 =
            subst₂ (λ a b. tally (has_run a b) rows ≡ 0) media run zero in
          unfold new_history in ground arith
      | inr other ↦ unfold new_history in ground arith
    ]

-- If a post has at most one history row of each run before a transaction, it has after it.
pub upsert_observation-IsOnce :
    (o : Observation) (db : Database)
    → IsOnce db.media_post_history
    → IsOnce (upsert_observation o db).0.media_post_history
unfolding upsert_observation
upsert_observation-IsOnce o db once =
    let (posts, drawn, row) = upsert_post o db.media_posts db.drawn in
    record_history-IsOnce o row.id (changed_fields o (latest row.id db.media_post_history none))
      db.media_post_history drawn once

-- The same observation at another time.
abbrev pub later : Observation → ℕ → Observation
later o now = record o { now = now }

changed_fields-later :
    (o : Observation) (now : ℕ) (previous : Option MediaPostHistory)
    → changed_fields (later o now) previous ≡ changed_fields o previous
unfolding changed_fields
changed_fields-later o now none = refl
changed_fields-later o now (some h) = refl

record_history_again :
    (o : Observation) (now media_id : ℕ) (rows : List MediaPostHistory) (drawn drawn' : ℕ)
    → let changed = changed_fields o (latest media_id rows none) in
      let rows' = (record_history o media_id changed rows drawn).0 in
      record_history
        (later o now)
        media_id
        (changed_fields (later o now) (latest media_id rows' none))
        rows'
        drawn'
      ≡ (rows', drawn', false)
record_history_again o now media_id rows drawn drawn' =
    let changed = changed_fields o (latest media_id rows none) in
    elim (record_history-find o media_id changed rows drawn) [
      | inl (unchanged, kept) ↦
          rw (kept, changed_fields-later o now (latest media_id rows none), unchanged)
            (unfold record_history in refl)
      | inr (h, there) ↦
          record_history_found (later o now) media_id _
            (record_history o media_id changed rows drawn).0 drawn' h there
    ]

-- A redelivered message observes the same post once more in the same run: it finds the post's row,
-- writes no history, adds no row to either table and draws no id.
pub upsert_observation_again :
    (o : Observation) (now : ℕ) (db : Database)
    → let (db1, r1) = upsert_observation o db in
      let (db2, r2) = upsert_observation (later o now) db1 in
      (r2.id ≡ r1.id)
      × (r2.history_recorded ≡ false)
      × (db2.media_post_history ≡ db1.media_post_history)
      × (length db2.media_posts ≡ length db1.media_posts)
      × (db2.drawn ≡ db1.drawn)
unfolding upsert_observation
upsert_observation_again o now db =
    let (posts, drawn, row) = upsert_post o db.media_posts db.drawn in
    let changed = changed_fields o (latest row.id db.media_post_history none) in
    let drawn1 = (record_history o row.id changed db.media_post_history drawn).1 in
    let found = upsert_post-find o db.media_posts db.drawn in
    let (refreshed, undrawn) = upsert_post-refresh (later o now) posts drawn1 row found in
    let same_id : (upsert_post (later o now) posts drawn1).2.id ≡ row.id =
      ap (λ p. p.id) refreshed ∙ unfold refresh_post in refl in
    let settled = record_history_again o now row.id db.media_post_history drawn drawn1 in
    (
      same_id,
      rw (same_id, undrawn, settled),
      rw (same_id, undrawn, settled),
      upsert_post-length (later o now) posts drawn1 row found,
      rw (same_id, undrawn, settled),
    )
