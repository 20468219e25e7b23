-- ===== src/Schedule/Dispatch.antt =====
-- The fan-out dispatcher of src/api/consumers/index.ts over the in-memory queue, and
-- InMemoryQueue.enqueueBatch (src/adapters/local/InMemoryQueue.ts).
use saral.Base.{
  ℕ, ◌+◌, ◌≡◌, ◌≢◌, refl, ◌⊎◌, inl, inr, Bool, true, false, Option, none, some, List, [], ◌∷◌, ◌++◌,
  arith, map, Bool-cases, append_assoc, append-nil, sym, ap, ◌∙◌, All,
}
use saral.Jobs.{SyncKind, top, recent, Job}
use saral.Queue.Memory.{Envelope, MemoryQueue, enqueue}
use saral.Store.Tables.{Database, Hashtag}
use saral.Store.Hashtags.{find_due_for_sync}

-- `Promise.all` of the calls: they run in order, and one that throws rejects the whole.
unfoldable pub enqueue_batch :
    (now : ℕ) → List Job → (delay_seconds : ℕ) → MemoryQueue → MemoryQueue × Option (List ℕ)
enqueue_batch now [] delay q = (q, some [])
enqueue_batch now (job ∷ jobs) delay q = elim (enqueue now job delay q) [
  | none ↦ ((enqueue_batch now jobs delay q).0, none)
  | some r ↦
      let (q2, ids) = enqueue_batch now jobs delay r.0 in
      (q2, elim ids [ none ↦ none | some more ↦ some (r.1 ∷ more) ])
]

abbrev pub sync_job : SyncKind → ℕ → Job
sync_job top id = Job.sync_top_hashtag_media id
sync_job recent id = Job.sync_recent_hashtag_media id

abbrev pub job_for : SyncKind → Hashtag → Job
job_for kind h = sync_job kind h.id

-- The handler of `DISPATCH_DUE_SYNCS`; another job does nothing. `true` says that it threw.
unfoldable pub dispatch_due_syncs : (now : ℕ) → Job → Database → MemoryQueue → MemoryQueue × Bool
dispatch_due_syncs now (Job.dispatch_due_syncs kind) db q =
    let (q1, ids) = enqueue_batch now (map (job_for kind) (find_due_for_sync kind now db)) 0 q in
    (q1, elim ids [ none ↦ true | some ids ↦ false ])
dispatch_due_syncs now job db q = (q, false)

-- The envelopes that a batch adds.
abbrev pub Waits : ℕ → Envelope → Type 0
Waits time e = (e.visible_at ≡ time) × (e.received_count ≡ 0)

abbrev added_envelope : ℕ → Job → MemoryQueue → Envelope
added_envelope now job q = record {
  id = q.drawn;
  job = job;
  receipt_handle = q.drawn + 1;
  received_count = 0;
  visible_at = now + 0;
}

abbrev with_envelope : ℕ → Job → MemoryQueue → MemoryQueue
with_envelope now job q = record q {
  messages = q.messages ++ added_envelope now job q ∷ [];
  drawn = q.drawn + 2;
}

enqueue_accepts :
    (now : ℕ) (job : Job) (q : MemoryQueue)
    → q.closed ≡ false
    → enqueue now job 0 q ≡ some (with_envelope now job q, q.drawn)
unfolding enqueue
enqueue_accepts now job q accepting = ground arith

enqueue_refuses :
    (now : ℕ) (job : Job) (q : MemoryQueue) → q.closed ≡ true → enqueue now job 0 q ≡ none
unfolding enqueue
enqueue_refuses now job q shut = ground arith

enqueue_batch_accepts :
    (now : ℕ) (jobs : List Job) (q : MemoryQueue)
    → q.closed ≡ false
    → let (q', ids) = enqueue_batch now jobs 0 q in
      (added : List Envelope) × (q'.messages ≡ q.messages ++ added)
      × (map (λ e. e.job) added ≡ jobs)
      × All (Waits now) added
      × ((l : List ℕ) × (ids ≡ some l))
unfolding enqueue_batch
enqueue_batch_accepts now [] q accepting = ([], sym (append-nil q.messages), refl, tt, ([], refl))
enqueue_batch_accepts now (job ∷ jobs) q accepting =
    let e = added_envelope now job q in
    let q1 = with_envelope now job q in
    let (added, grown, same, waits, (ids, done)) = enqueue_batch_accepts now jobs q1 accepting in
    rw (enqueue_accepts now job q accepting, enqueue_batch)
      (
        e ∷ added,
        grown ∙ append_assoc q.messages (e ∷ []) added,
        ap (λ l. job ∷ l) same,
        ((omega arith, refl), waits),
        (q.drawn ∷ ids, rw done refl),
      )

enqueue_batch_refuses :
    (now : ℕ) (jobs : List Job) (q : MemoryQueue)
    → q.closed ≡ true
    → ((enqueue_batch now jobs 0 q).0 ≡ q)
      × (((jobs ≡ []) × ((enqueue_batch now jobs 0 q).1 ≡ some []))
          ⊎ ((jobs ≢ []) × ((enqueue_batch now jobs 0 q).1 ≡ none)))
unfolding enqueue_batch
enqueue_batch_refuses now [] q shut = (refl, inl (refl, refl))
enqueue_batch_refuses now (job ∷ jobs) q shut =
    rw (enqueue_refuses now job q shut, enqueue_batch)
      ((enqueue_batch_refuses now jobs q shut).0, inr (λ e. cc, refl))

-- On a queue that accepts messages, the dispatcher puts one job behind the others for each hashtag
-- that is due, in the order of the table and of the kind that was asked for, each visible at once and
-- never received yet. On a closed queue it changes nothing, and throws exactly if a hashtag is due.
pub dispatch_due_syncs-queues :
    (now : ℕ) (kind : SyncKind) (db : Database) (q : MemoryQueue)
    → let (q', threw) = dispatch_due_syncs now (Job.dispatch_due_syncs kind) db q in
      let due = find_due_for_sync kind now db in
      ((q.closed ≡ false)
        × (threw ≡ false)
        × ((added : List Envelope) × (q'.messages ≡ q.messages ++ added)
            × (map (λ e. e.job) added ≡ map (job_for kind) due)
            × All (Waits now) added))
      ⊎ ((q.closed ≡ true)
          × (q' ≡ q)
          × (((due ≡ []) × (threw ≡ false)) ⊎ ((due ≢ []) × (threw ≡ true))))
unfolding dispatch_due_syncs
dispatch_due_syncs-queues now kind db q =
    let due = find_due_for_sync kind now db in
    elim (Bool-cases q.closed) [
      | inr accepting ↦
          let (added, grown, same, waits, (ids, done)) =
            enqueue_batch_accepts now (map (job_for kind) due) q accepting in
          inl (accepting, rw (done, dispatch_due_syncs) refl, (added, grown, same, waits))
      | inl shut ↦
          let (kept, how) = enqueue_batch_refuses now (map (job_for kind) due) q shut in
          inr (shut, kept, thrown due (enqueue_batch now (map (job_for kind) due) 0 q) how)
    ]
  where
    thrown :
        (due : List Hashtag) (r : MemoryQueue × Option (List ℕ))
        → ((map (job_for kind) due ≡ []) × (r.1 ≡ some []))
          ⊎ ((map (job_for kind) due ≢ []) × (r.1 ≡ none))
        → ((due ≡ []) × (elim r.1 [ none ↦ true | some ids ↦ false ] ≡ false))
          ⊎ ((due ≢ []) × (elim r.1 [ none ↦ true | some ids ↦ false ] ≡ true))
    thrown [] r (inl (e, h)) = inl (refl, rw h refl)
    thrown [] r (inr (n, h)) = absurd (n refl)
    thrown (d ∷ ds) r (inl (e, h)) = cc
    thrown (d ∷ ds) r (inr (n, h)) = inr (λ e. cc, rw h refl)
