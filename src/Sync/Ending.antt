-- ===== src/Sync/Ending.antt =====
-- What HashtagSyncService.runSync (src/api/services/HashtagSyncService.ts) makes of the row of its
-- run, and what SyncRunRepository.findResumableRun then finds.
use saral.Base.{
  ℕ, ◌≡◌, refl, ◌≢◌, ◌⊎◌, inl, inr, Bool, true, false, Option, none, some, List, [], ◌∷◌, String,
  arith, leb, ==_iff, find, keep, All, Bool-cases,
}
use mathlib.Core.Path.{subst}
use saral.Jobs.{SyncKind}
use saral.Store.Tables.{Database, SyncRun, Hashtag, RunStatus, succeeded, update_where}
use saral.Store.Runs.{
  is_running, has_id, resumable, newest, find_resumable_run, find_run, close_run, finish_run,
}
use saral.Store.Hashtags.{mark_sync_succeeded, mark_sync_failed}
use saral.Sync.State.{World, SyncError, Runtime, SyncOptions, ok, err}
use saral.Sync.Pages.{Progress}
use saral.Sync.Service.{claim_run, walk_pages, close, outcome_of, error_status, run_claimed}

-- A row of the run that ended is not `running`.
abbrev pub HasEnded : ℕ → SyncRun → Type 0
HasEnded id r = r.id ≡ id → is_running r.status ≡ false

closed-HasEnded :
    (now id : ℕ) (status : RunStatus) (error : Option String) (cap : Bool) (rows : List SyncRun)
    → is_running status ≡ false
    → All (HasEnded id) (update_where (has_id id) (close_run now status error cap) rows)
unfolding close_run
closed-HasEnded now id status error cap [] h = tt
closed-HasEnded now id status error cap (r ∷ rows) h =
    (ground (arith, ==_iff r.id id), closed-HasEnded now id status error cap rows h)

closed-find :
    (now id : ℕ) (status : RunStatus) (error : Option String) (cap : Bool) (rows : List SyncRun)
    (row : SyncRun)
    → find (has_id id) (update_where (has_id id) (close_run now status error cap) rows) ≡ some row
    → row.status ≡ status
unfolding close_run
closed-find now id status error cap [] row h = cc
closed-find now id status error cap (r ∷ rows) row h =
    ground (arith, closed-find now id status error cap rows row)

All-keep {ℓ} :
    {A : Type ℓ} (P : A → Type 0) (p : A → Bool) (xs : List A)
    → All P xs
    → All (λ x. P x × (p x ≡ true)) (keep p xs)
All-keep P p [] h = tt
All-keep P p (x ∷ xs) (px, h) = elim (Bool-cases (p x)) [
  | inl e ↦ rw e ((px, e), All-keep P p xs h)
  | inr e ↦ rw e (All-keep P p xs h)
]

abbrev OnSome : (SyncRun → Type 0) → Option SyncRun → Type 0
OnSome P none = Unit
OnSome P (some r) = P r

newest-All :
    (P : SyncRun → Type 0) (rows : List SyncRun) (best : Option SyncRun)
    → All P rows
    → OnSome P best
    → OnSome P (newest rows best)
unfolding newest
newest-All P [] best h k = k
newest-All P (x ∷ rows) none (px, h) k = newest-All P rows (some x) h px
newest-All P (x ∷ rows) (some b) (px, h) k = elim (Bool-cases (leb b.started_at x.started_at)) [
  | inl e ↦ rw e (newest-All P rows (some x) h px)
  | inr e ↦ rw e (newest-All P rows (some b) h k)
]

-- An ended run is not found again.
ended-not_resumable :
    (id : ℕ) (kind : SyncKind) (tag : ℕ) (db : Database) (r : SyncRun)
    → All (HasEnded id) db.sync_runs
    → find_resumable_run kind tag db ≡ some r
    → r.id ≢ id
unfolding find_resumable_run
ended-not_resumable id kind tag db r ended e same =
    let P : SyncRun → Type 0 = λ x. HasEnded id x × (resumable kind tag x ≡ true) in
    let kept =
      newest-All P (keep (resumable kind tag) db.sync_runs) none
        (All-keep (HasEnded id) (resumable kind tag) db.sync_runs ended) tt in
    let (over, on) : HasEnded id r × (resumable kind tag r ≡ true) = subst (OnSome P) e kept in
    let stopped = over same in ground arith

module _ {W : Type 0} (rt : Runtime W) where
  error_status-ended : (before after : ℕ) → is_running (error_status before after) ≡ false
  error_status-ended before after = ground arith

  close-HasEnded :
      (options : SyncOptions) (run : SyncRun) (acc : Progress) (stop : Option SyncError)
      (s : World W)
      → All (HasEnded run.id) (close rt options run acc stop s).0.db.sync_runs
  unfolding close finish_run mark_sync_succeeded mark_sync_failed
  close-HasEnded options run acc none s =
      closed-HasEnded _ run.id succeeded none _ s.db.sync_runs refl
  close-HasEnded options run acc (some e) s =
      closed-HasEnded _ run.id _ (some (rt.message_of e)) _ s.db.sync_runs
        (error_status-ended run.items_seen acc.items_seen)

  -- The status of the row that `close` leaves.
  close-status :
      (options : SyncOptions) (run : SyncRun) (acc : Progress) (stop : Option SyncError)
      (s : World W) (row : SyncRun)
      → find_run run.id (close rt options run acc stop s).0.db ≡ some row
      → ((stop ≡ none)
          × (row.status ≡ succeeded)
          × ((close rt options run acc stop s).1 ≡ ok (outcome_of run.id acc)))
        ⊎ ((e : SyncError) × (stop ≡ some e)
            × (row.status ≡ error_status run.items_seen acc.items_seen)
            × ((close rt options run acc stop s).1 ≡ err e))
  unfolding close finish_run mark_sync_succeeded mark_sync_failed
  close-status options run acc none s row h =
      inl (refl, closed-find _ run.id _ none _ s.db.sync_runs row h, refl)
  close-status options run acc (some e) s row h =
      inr (e, refl, closed-find _ run.id _ (some (rt.message_of e)) _ s.db.sync_runs row h, refl)

  -- However a run under the lock ends, its row has ended with it: as `succeeded` where the run
  -- reports an outcome, and else as `partial` if this attempt saw an item in a page that it
  -- finished, as `failed` if it did not. No search for a run to resume in the database that it
  -- leaves finds that row, so that a partial run is not taken up from its cursor.
  pub run_claimed-ends :
      (options : SyncOptions) (h : Hashtag) (ig : String) (s : World W)
      → let (s1, run) = claim_run rt options s in
        let (s2, acc, stop) = walk_pages rt options h ig run s1 in
        let (s', r) = run_claimed rt options h ig s in
        ((row : SyncRun)
          → find_run run.id s'.db ≡ some row
          → ((row.status ≡ succeeded) × (r ≡ ok (outcome_of run.id acc)))
            ⊎ ((e : SyncError) × (r ≡ err e)
                × (row.status ≡ error_status run.items_seen acc.items_seen)))
        × ((kind : SyncKind) (tag : ℕ) (found : SyncRun)
            → find_resumable_run kind tag s'.db ≡ some found
            → found.id ≢ run.id)
  unfolding run_claimed
  run_claimed-ends options h ig s =
      let (s1, run) = claim_run rt options s in
      let (s2, acc, stop) = walk_pages rt options h ig run s1 in
      (
        λ row found. elim (close-status options run acc stop s2 row found) [
          | inl (_, status, r) ↦ inl (status, r)
          | inr (e, _, status, r) ↦ inr (e, r, status)
        ],
        λ kind tag found e.
            ended-not_resumable run.id kind tag _ found (close-HasEnded options run acc stop s2) e,
      )
