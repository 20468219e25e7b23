-- ===== src/Schedule/Due.antt =====
-- What the fan-out dispatcher of src/api/consumers/index.ts queues, hashtag by hashtag.
use saral.Base.{
  ℕ, ◌≤◌, ◌≡◌, refl, sym, ◌⊎◌, inl, inr, true, false, Option, none, some, List, [], ◌∷◌, ◌++◌,
  arith, map, keep, Bool-cases, All,
}
use mathlib.Core.Path.{subst}
use saral.Jobs.{SyncKind, top, recent, Job}
use saral.Queue.Memory.{Envelope, MemoryQueue}
use saral.Store.Tables.{Database, Hashtag}
use saral.Store.Hashtags.{is_due, not_after, not_before, kind_enabled, find_due_for_sync}
use saral.Schedule.Dispatch.{Waits, job_for, dispatch_due_syncs, dispatch_due_syncs-queues}

-- The switch of a hashtag for one kind of sync.
abbrev pub IsEnabled : SyncKind → Hashtag → Type 0
IsEnabled top h = h.top_sync_enabled ≡ true
IsEnabled recent h = h.recent_sync_enabled ≡ true

abbrev pub Reached : Option ℕ → ℕ → Type 0
Reached none now = Unit
Reached (some t) now = t ≤ now

abbrev pub NotPassed : Option ℕ → ℕ → Type 0
NotPassed none now = Unit
NotPassed (some t) now = now ≤ t

-- A hashtag is due: it is active, this kind of sync is switched on for it, and its window is open.
abbrev pub IsDue : SyncKind → ℕ → Hashtag → Type 0
IsDue kind now h =
    (h.is_active ≡ true) × IsEnabled kind h × Reached h.track_from now × NotPassed h.track_until now

-- The job asks for a sync of this kind of this hashtag.
abbrev pub Asks : SyncKind → ℕ → Job → Type 0
Asks top id (Job.sync_top_hashtag_media i) = i ≡ id
Asks recent id (Job.sync_recent_hashtag_media i) = i ≡ id
Asks kind id job = ⊥

-- The jobs are one for each hashtag of the list that is due, in its order.
abbrev pub DueJobs : SyncKind → ℕ → List Hashtag → List Job → Type 0
DueJobs kind now [] jobs = jobs ≡ []
DueJobs kind now (h ∷ hs) jobs =
    (IsDue kind now h
      × ((job : Job) × (rest : List Job) × (jobs ≡ job ∷ rest)
          × Asks kind h.id job
          × DueJobs kind now hs rest))
    ⊎ (¬ IsDue kind now h × DueJobs kind now hs jobs)

window_opens : (o : Option ℕ) (now : ℕ) → not_after o now ≡ true → Reached o now
window_opens none now h = tt
window_opens (some t) now h = ground arith

window_lasts : (o : Option ℕ) (now : ℕ) → not_before o now ≡ true → NotPassed o now
window_lasts none now h = tt
window_lasts (some t) now h = ground arith

opened : (o : Option ℕ) (now : ℕ) → Reached o now → not_after o now ≡ true
opened none now h = refl
opened (some t) now h = ground arith

lasting : (o : Option ℕ) (now : ℕ) → NotPassed o now → not_before o now ≡ true
lasting none now h = refl
lasting (some t) now h = ground arith

enabled : (kind : SyncKind) (h : Hashtag) → kind_enabled kind h ≡ true → IsEnabled kind h
enabled top h e = e
enabled recent h e = e

switched_on : (kind : SyncKind) (h : Hashtag) → IsEnabled kind h → kind_enabled kind h ≡ true
switched_on top h e = e
switched_on recent h e = e

is_due-IsDue :
    (kind : SyncKind) (now : ℕ) (h : Hashtag) → is_due kind now h ≡ true → IsDue kind now h
is_due-IsDue kind now h e =
    ground (arith, enabled kind h, window_opens h.track_from now, window_lasts h.track_until now)

IsDue-is_due :
    (kind : SyncKind) (now : ℕ) (h : Hashtag) → IsDue kind now h → is_due kind now h ≡ true
IsDue-is_due kind now h (a, e, f, u) =
    ground (arith, switched_on kind h e, opened h.track_from now f, lasting h.track_until now u)

asks : (kind : SyncKind) (h : Hashtag) → Asks kind h.id (job_for kind h)
asks top h = refl
asks recent h = refl

job_for-DueJobs :
    (kind : SyncKind) (now : ℕ) (hs : List Hashtag)
    → DueJobs kind now hs (map (job_for kind) (keep (is_due kind now) hs))
job_for-DueJobs kind now [] = refl
job_for-DueJobs kind now (h ∷ hs) = elim (Bool-cases (is_due kind now h)) [
  | inl e ↦ rw e (
      inl (
        is_due-IsDue kind now h e,
        (
          job_for kind h,
          map (job_for kind) (keep (is_due kind now) hs),
          refl,
          asks kind h,
          job_for-DueJobs kind now hs,
        ),
      ))
  | inr e ↦ rw e (
      inr (
        λ due. let yes : is_due kind now h ≡ true = IsDue-is_due kind now h due in cc,
        job_for-DueJobs kind now hs,
      ))
]

none_due :
    (kind : SyncKind) (now : ℕ) (hs : List Hashtag)
    → DueJobs kind now hs []
    → keep (is_due kind now) hs ≡ []
none_due kind now [] h = refl
none_due kind now (h ∷ hs) (inl (due, (job, rest, e, a, more))) = cc
none_due kind now (h ∷ hs) (inr (not_due, others)) = elim (Bool-cases (is_due kind now h)) [
  | inl e ↦ absurd (not_due (is_due-IsDue kind now h e))
  | inr e ↦ rw e (none_due kind now hs others)
]

-- On a queue that accepts messages, the dispatcher puts behind the others one job for each hashtag
-- that is active, has this kind of sync switched on and is within its window, and for no other, in
-- the order of the table; each asks for the kind that was asked for, is visible at once and was never
-- received. On a closed queue it changes nothing, and throws exactly if a hashtag is due.
pub dispatch_due_syncs-DueJobs :
    (now : ℕ) (kind : SyncKind) (db : Database) (q : MemoryQueue)
    → let (q', threw) = dispatch_due_syncs now (Job.dispatch_due_syncs kind) db q in
      ((q.closed ≡ false)
        × (threw ≡ false)
        × ((added : List Envelope) × (q'.messages ≡ q.messages ++ added)
            × DueJobs kind now db.hashtags (map (λ e. e.job) added)
            × All (Waits now) added))
      ⊎ ((q.closed ≡ true)
          × (q' ≡ q)
          × ((DueJobs kind now db.hashtags [] × (threw ≡ false))
              ⊎ ((¬ DueJobs kind now db.hashtags []) × (threw ≡ true))))
unfolding find_due_for_sync
dispatch_due_syncs-DueJobs now kind db q =
    let hs = db.hashtags in
    let right = job_for-DueJobs kind now hs in
    elim (dispatch_due_syncs-queues now kind db q) [
      | inl (accepting, calm, (added, grown, same, waits)) ↦ inl (
        accepting,
        calm,
        (added, grown, subst (λ jobs. DueJobs kind now hs jobs) (sym same) right, waits),
      )
      | inr (shut, kept, inl (none_there, calm)) ↦ inr (
        shut,
        kept,
        inl (subst (λ l. DueJobs kind now hs (map (job_for kind) l)) none_there right, calm),
      )
      | inr (shut, kept, inr (some_there, loud)) ↦
          inr (shut, kept, inr (λ d. some_there (none_due kind now hs d), loud))
    ]
