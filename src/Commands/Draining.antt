-- ===== src/Commands/Draining.antt =====
-- The drain of commands/_drain.ts over the in-memory queue comes to an end: each poll that finds
-- a message spends some of the deliveries that the redrive ceiling allows.
use saral.Base.{
  ℕ, zero, suc, ◌+◌, ◌-◌, ◌*◌, ◌≤◌, ◌<◌, ◌≡◌, refl, Option, none, some, List, [], ◌∷◌, arith, ltb,
  leb, ◌||◌, length, Bool-cases, inl, inr,
}
use saral.Jobs.{Job}
use saral.Queue.Port.{QueueMessage}
use saral.Queue.Memory.{receive_round}
use saral.Queue.Budget.{budget, deliveries, every, receive_round-budget, ack-budget, nack-budget}
use saral.Asset.Storage.{Attempt, got, threw, Storage}
use saral.Asset.Download.{
  DownloadStatus, newly_stored, deduplicated, skipped, DownloadResult, DownloadError, Machine,
}
use saral.Sync.State.{World}
use saral.Commands.Drain.{
  DrainedQueue, DrainSummary, resume, Drained, finished, Download, count_status, count_failure,
  or_default, no_downloads, give_up, settle_download, hand_back, drain_message, proceed,
  drain_batch, after_receive, drain_loop, drain_asset_jobs, memory_driver, poll, download_in,
}

-- What is assumed of Date.now and setTimeout while the drain runs: nobody sets the clock back, and it
-- has moved on after a pause.
pub record ClockLaws {W : Type 0} (clock : W → W × ℕ) (pause : W → W) : Type 0 where
  pub not_back : (w : W) → (clock w).1 ≤ (clock (clock w).0).1
  pub paused : (w : W) → (clock w).1 + 1 ≤ (clock (pause (clock w).0)).1

-- The downloads that a summary counts.
abbrev pub total : DrainSummary → ℕ
total n = n.stored + n.deduplicated + n.skipped + n.failed

-- A step of the drain ended well: it counted at most `downloads` downloads, and the queue has at
-- most the budget that it had.
abbrev GoesOn :
    {W : Type 0} → (downloads : ℕ) → DrainSummary → World W → World W × Option DrainSummary → Type 0
GoesOn downloads n s (s', r) =
    (n' : DrainSummary) × (r ≡ some n')
    × (total n' ≤ total n + downloads)
    × (budget every s'.queue ≤ budget every s.queue)

total-count_status :
    (status : DownloadStatus) (n : DrainSummary) → total (count_status status n) ≡ total n + 1
total-count_status newly_stored n = omega arith
total-count_status deduplicated n = omega arith
total-count_status skipped n = omega arith

deliveries-every : (ms : List QueueMessage) → deliveries every ms ≡ length ms
deliveries-every [] = refl
deliveries-every (m ∷ ms) = omega (arith, deliveries-every ms)

times_mono : (a b c : ℕ) → a ≤ b → a * c ≤ b * c
times_mono a b c le = grind arith

times_step : (a b c : ℕ) → a < b → a * c + c ≤ b * c
times_step a b c lt = grind (arith, times_mono (a + 1) b c)

module _ {W : Type 0} (m : Machine W) (storage : Storage W) (pause : W → W) (polls : ℕ) where
  abbrev queue : DrainedQueue (World W)
  queue = memory_driver m.clock pause polls

  abbrev fetch : Download (World W)
  fetch = download_in m storage

  settle-GoesOn :
      (message : QueueMessage) (n : DrainSummary) (s s' : World W)
      (r : Attempt DownloadResult DownloadError)
      → s'.queue ≡ s.queue
      → GoesOn 1 n s (settle_download queue fetch message n (s', r))
  unfolding settle_download give_up
  settle-GoesOn message n s s' (threw e) same =
      (count_failure n, refl, omega arith, rw same (ack-budget message every s.queue))
  settle-GoesOn message n s s' (got r) same = (
    count_status r.status n,
    refl,
    omega (arith, total-count_status r.status n),
    rw same (ack-budget message every s.queue),
  )

  hand_back-GoesOn :
      (message : QueueMessage) (n : DrainSummary) (s : World W)
      → GoesOn 1 n s (hand_back queue fetch message n s)
  unfolding hand_back
  hand_back-GoesOn message n s = (n, refl, omega arith, nack-budget _ message every s.queue)

  job-GoesOn :
      (job : Job) (message : QueueMessage) (n : DrainSummary) (s : World W)
      → message.job ≡ job
      → GoesOn 1 n s (drain_message queue fetch message n s)
  unfolding drain_message
  job-GoesOn (Job.download_media_asset id) message n s e =
      rw (e, drain_message) (settle-GoesOn message n s _ _ refl)
  job-GoesOn (Job.dispatch_due_syncs kind) message n s e =
      rw (e, drain_message) (hand_back-GoesOn message n s)
  job-GoesOn (Job.sync_top_hashtag_media id) message n s e =
      rw (e, drain_message) (hand_back-GoesOn message n s)
  job-GoesOn (Job.sync_recent_hashtag_media id) message n s e =
      rw (e, drain_message) (hand_back-GoesOn message n s)

  batch-GoesOn :
      (ms : List QueueMessage) (n : DrainSummary) (s : World W)
      → GoesOn (length ms) n s (drain_batch queue fetch ms n s)
  unfolding drain_batch
  batch-GoesOn [] n s = (n, refl, omega arith, omega arith)
  batch-GoesOn (x ∷ ms) n s =
      let (n1, e, counted, spent) = job-GoesOn x.job x n s refl in
      let s1 = (drain_message queue fetch x n s).0 in
      let (n2, e2, counted2, spent2) = batch-GoesOn ms n1 s1 in
      rw (e, proceed) (n2, e2, omega arith, omega arith)

  -- The loop ends by its test.
  abbrev pub EndsWell : DrainSummary → World W → World W × Drained → Type 0
  EndsWell n s (s', r) =
      (n' : DrainSummary) × (r ≡ finished n')
      × (total n' + budget every s'.queue ≤ total n + budget every s.queue)

  resume-EndsWell :
      (f : DrainSummary → World W → World W × Drained) (n n1 : DrainSummary) (s : World W)
      (r : World W × Option DrainSummary)
      → r.1 ≡ some n1
      → EndsWell n s (f n1 r.0)
      → EndsWell n s (resume queue fetch f r)
  resume-EndsWell f n n1 s (s2, none) e h = cc
  resume-EndsWell f n n1 s (s2, some n2) e h = let same : n1 ≡ n2 = cc in rw (← same) h

  after_receive-EndsWell :
      (next : ℕ → DrainSummary → World W → World W × Drained) (stop empty left : ℕ)
      (n : DrainSummary) (ready : List QueueMessage) (s s1 : World W)
      → length ready + budget every s1.queue ≤ budget every s.queue
      → budget every s.queue * stop + (stop - empty) ≤ left
      → empty < stop
      → ((c : ℕ) (n' : DrainSummary) (t : World W)
          → budget every t.queue * stop + (stop - c) < left
          → EndsWell n' t (next c n' t))
      → EndsWell n s (after_receive queue fetch next empty n (s1, some ready))
  unfolding after_receive
  after_receive-EndsWell next stop empty left n [] s s1 paid enough polls ih =
      let less : budget every s1.queue * stop ≤ budget every s.queue * stop =
        times_mono _ _ stop (omega arith) in
      let (n', e, done) = ih (empty + 1) n s1 (omega arith) in (n', e, omega arith)
  after_receive-EndsWell next stop empty left n (x ∷ ms) s s1 paid enough polls ih =
      let (n1, e1, counted, spent) = batch-GoesOn (x ∷ ms) n s1 in
      let s2 = (drain_batch queue fetch (x ∷ ms) n s1).0 in
      let less : budget every s2.queue * stop + stop ≤ budget every s.queue * stop =
        times_step _ _ stop (omega arith) in
      let (n', e, done) = ih 0 n1 s2 (omega arith) in
      resume-EndsWell (next 0) n n1 s (drain_batch queue fetch (x ∷ ms) n s1) e1
        (n', e, omega arith)

  -- A call of `receive` is fulfilled, and pays for the messages that it hands out.
  abbrev Pays : World W → World W × Option (List QueueMessage) → Type 0
  Pays s (s', r) =
      (ready : List QueueMessage) × (r ≡ some ready)
      × (length ready + budget every s'.queue ≤ budget every s.queue)

  poll-Pays :
      ClockLaws m.clock pause
      → (fuel limit deadline : ℕ) (s : World W) → deadline - (m.clock s.outside).1 < fuel
      → Pays s (poll m.clock pause fuel limit deadline s)
  unfolding poll
  poll-Pays laws zero limit deadline s lt = absurd (omega arith)
  poll-Pays laws (suc fuel) limit deadline s lt =
      let (w1, now) = m.clock s.outside in
      let (q, ready) = receive_round now limit s.queue in
      let (w2, later) = m.clock w1 in
      let paid : length ready + budget every q ≤ budget every s.queue =
        omega (arith, receive_round-budget now limit every s.queue, deliveries-every ready) in
      elim (Bool-cases (ltb 0 (length ready) || q.closed)) [
        | inl e ↦ rw (e, poll) (ready, refl, paid)
        | inr e ↦ elim (Bool-cases (leb deadline later)) [
          | inl d ↦ rw (e, d, poll) (ready, refl, paid)
          | inr d ↦
              let early : later < deadline = ground arith in
              let (more, found, paid_more) =
                poll-Pays laws fuel limit deadline (record s { outside = pause w2; queue = q })
                  (omega (arith, early, lt, laws.not_back s.outside, laws.paused w1)) in
              rw (e, d, poll) (more, found, omega (arith, paid, paid_more))
        ]
      ]

  receive-Pays :
      ClockLaws m.clock pause
      → (wait : ℕ) (s : World W) → wait * 1000 < polls
      → Pays s (queue.receive 10 wait s)
  receive-Pays laws wait s enough =
      let (w1, start) = m.clock s.outside in
      poll-Pays laws polls 10 (start + wait * 1000) (record s { outside = w1 })
        (omega (arith, enough, laws.not_back s.outside))

  loop-EndsWell :
      (laws : ClockLaws m.clock pause) (fuel stop wait empty : ℕ) (n : DrainSummary) (s : World W)
      → wait * 1000 < polls
      → budget every s.queue * stop + (stop - empty) < fuel
      → EndsWell n s (drain_loop queue fetch fuel stop wait empty n s)
  unfolding drain_loop
  loop-EndsWell laws zero stop wait empty n s timed lt = absurd (omega arith)
  loop-EndsWell laws (suc fuel) stop wait empty n s timed lt = elim (Bool-cases (ltb empty stop)) [
    | inr over ↦ rw over (n, refl, omega arith)
    | inl polls_again ↦
        let (ready, found, paid) = receive-Pays laws wait s timed in
        let s1 = (queue.receive 10 wait s).0 in
        rw polls_again (
          received (queue.receive 10 wait s) ready found (
            after_receive-EndsWell (drain_loop queue fetch fuel stop wait) stop empty fuel n ready s
              s1 paid (omega arith) (ground arith)
              (λ c n' t enough. loop-EndsWell laws fuel stop wait c n' t timed enough)))
  ]
    where
      received :
          (o : World W × Option (List QueueMessage)) (ready : List QueueMessage)
          → o.1 ≡ some ready
          → EndsWell n s (
              after_receive queue fetch
                (drain_loop queue fetch fuel stop wait)
                empty
                n
                (o.0, some ready))
          → EndsWell n s
              (after_receive queue fetch (drain_loop queue fetch fuel stop wait) empty n o)
      received o ready found h = rw (← found) at h

-- On the in-memory queue the drain ends by itself, whatever jobs the queue holds, however each
-- download ends and however long a poll may wait, if the clock does not go back and moves on in a
-- pause. With the default of one empty poll, one round more than the deliveries that the redrive
-- ceiling leaves is fuel enough, and more rounds than the milliseconds of the wait are enough for a
-- poll. The drain is fulfilled, never rejected, and its summary counts no more downloads than the
-- ceiling leaves, less those that are left over.
pub drain_asset_jobs_finishes :
    {W : Type 0} (m : Machine W) (storage : Storage W) (pause : W → W) (polls : ℕ)
    (wait_time : Option ℕ) (fuel : ℕ) (s : World W)
    → ClockLaws m.clock pause
    → or_default wait_time 0 * 1000 < polls
    → budget every s.queue + 1 < fuel
    → let (s', r) =
        drain_asset_jobs
          (memory_driver m.clock pause polls)
          (download_in m storage)
          fuel
          none
          wait_time
          s in
      (n : DrainSummary) × (r ≡ finished n)
      × (total n + budget every s'.queue ≤ budget every s.queue)
unfolding drain_asset_jobs
drain_asset_jobs_finishes m storage pause polls wait_time fuel s laws timed lt =
    let (n, e, done) =
      loop-EndsWell m storage pause polls laws fuel 1 (or_default wait_time 0) 0 no_downloads s
        timed (omega arith) in
    (n, e, omega arith)
