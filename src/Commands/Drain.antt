-- ===== src/Commands/Drain.antt =====
-- drainAssetJobs of commands/_drain.ts: it runs the download jobs that are in a queue until the
-- queue seems to be empty. The queue is an interface over a state `S`, and so is the download.
use saral.Base.{
  ℕ, zero, suc, ◌+◌, ◌*◌, ◌||◌, leb, length, Bool, true, false, Option, none, some, List, [], ◌∷◌,
  ltb, if◌then◌else◌,
}
use saral.Jobs.{Job}
use saral.Queue.Port.{QueueMessage}
use saral.Queue.Memory
use saral.Queue.Memory.{MemoryQueue, receive_round}
use saral.Sqs.Driver
use saral.Sqs.Driver.{SqsClient, Texts}
use saral.Asset.Storage.{Attempt, got, threw, Storage}
use saral.Asset.Download.{
  DownloadStatus, newly_stored, deduplicated, skipped, DownloadResult, DownloadError, Machine,
  download,
}
use saral.Sync.State.{World}

-- The calls of the queue port. `none`, or the flag `true`, is a rejected promise.
pub record DrainedQueue (S : Type 0) : Type 0 where
  pub is_sqs : Bool
  pub receive : (max_messages wait_time_seconds : ℕ) → S → S × Option (List QueueMessage)
  pub ack : QueueMessage → S → S × Bool
  pub nack : QueueMessage → S → S × Bool

pub record DrainSummary : Type 0 where
  pub stored : ℕ
  pub deduplicated : ℕ
  pub skipped : ℕ
  pub failed : ℕ

pub data Drained : Type 0 where
  finished : DrainSummary → Drained
  rejected stuck : Drained

abbrev pub Download : Type 0 → Type 0
Download S = ℕ → S → S × Attempt DownloadResult DownloadError

abbrev pub count_status : DownloadStatus → DrainSummary → DrainSummary
count_status newly_stored n = record n { stored = n.stored + 1 }
count_status deduplicated n = record n { deduplicated = n.deduplicated + 1 }
count_status skipped n = record n { skipped = n.skipped + 1 }

abbrev pub count_failure : DrainSummary → DrainSummary
count_failure n = record n { failed = n.failed + 1 }

abbrev pub or_default : Option ℕ → ℕ → ℕ
or_default none d = d
or_default (some n) d = n

abbrev pub no_downloads : DrainSummary
no_downloads = record { stored = 0; deduplicated = 0; skipped = 0; failed = 0 }

module _ {S : Type 0} (queue : DrainedQueue S) (fetch : Download S) where
  -- The `catch`. `none` is a rejection.
  unfoldable pub give_up : QueueMessage → DrainSummary → S → S × Option DrainSummary
  give_up message n s =
      let (s', throws) = queue.ack message s in
      (s', if throws then none else some (count_failure n))

  -- The `try`, once the download has ended. An `ack` that throws is caught as well.
  unfoldable pub settle_download :
      QueueMessage
      → DrainSummary
      → S × Attempt DownloadResult DownloadError
      → S × Option DrainSummary
  unfolding give_up
  settle_download message n (s, threw e) = give_up message n s
  settle_download message n (s, got r) =
      let counted = count_status r.status n in
      let (s', throws) = queue.ack message s in
      if throws then give_up message counted s' else (s', some counted)

  unfoldable pub hand_back : QueueMessage → DrainSummary → S → S × Option DrainSummary
  hand_back message n s =
      let (s', throws) = queue.nack message s in (s', if throws then none else some n)

  -- The body of the inner loop.
  unfoldable pub drain_message : QueueMessage → DrainSummary → S → S × Option DrainSummary
  unfolding settle_download hand_back
  drain_message message n s = elim message.job [
    | Job.download_media_asset id ↦ settle_download message n (fetch id s)
    | Job.dispatch_due_syncs kind ↦ hand_back message n s
    | Job.sync_top_hashtag_media id ↦ hand_back message n s
    | Job.sync_recent_hashtag_media id ↦ hand_back message n s
  ]

  abbrev pub proceed :
      (DrainSummary → S → S × Option DrainSummary)
      → S × Option DrainSummary
      → S × Option DrainSummary
  proceed next (s, none) = (s, none)
  proceed next (s, some n) = next n s

  unfoldable pub drain_batch : List QueueMessage → DrainSummary → S → S × Option DrainSummary
  unfolding drain_message
  drain_batch [] n s = (s, some n)
  drain_batch (m ∷ ms) n s = proceed (drain_batch ms) (drain_message m n s)

  -- What follows a batch, or an answer without one.
  abbrev pub resume : (DrainSummary → S → S × Drained) → S × Option DrainSummary → S × Drained
  resume next (s, none) = (s, rejected)
  resume next (s, some n) = next n s

  unfoldable pub after_receive :
      (next : (consecutive_empty : ℕ) → DrainSummary → S → S × Drained)
      → (consecutive_empty : ℕ) → DrainSummary
      → S × Option (List QueueMessage)
      → S × Drained
  unfolding drain_batch
  after_receive next consecutive_empty n (s, none) = (s, rejected)
  after_receive next consecutive_empty n (s, some []) = next (consecutive_empty + 1) n s
  after_receive next consecutive_empty n (s, some (m ∷ ms)) =
      resume (next 0) (drain_batch (m ∷ ms) n s)

  -- The `while` loop, with fuel.
  unfoldable pub drain_loop :
      ℕ
      → (empty_polls_before_stop wait_time_seconds consecutive_empty : ℕ) → DrainSummary
      → S
      → S × Drained
  unfolding after_receive
  drain_loop zero stop wait consecutive_empty n s = (s, stuck)
  drain_loop (suc fuel) stop wait consecutive_empty n s =
      let next = drain_loop fuel stop wait in
      if ltb consecutive_empty stop
      then after_receive next consecutive_empty n (queue.receive 10 wait s)
      else (s, finished n)

  -- The two options, each with its default.
  unfoldable pub drain_asset_jobs : (fuel : ℕ) (empty_polls wait_time : Option ℕ) → S → S × Drained
  unfolding drain_loop
  drain_asset_jobs fuel empty_polls wait_time =
      drain_loop fuel (or_default empty_polls (if queue.is_sqs then 3 else 1))
        (or_default wait_time (if queue.is_sqs then 5 else 0)) 0 no_downloads

-- The loop of InMemoryQueue.receive, with fuel: a round at the clock's time, which ends the loop if
-- it found messages or the queue is closed or the clock has come to the deadline; and else a pause of
-- 100 ms. `none` is the end of the fuel.
unfoldable pub poll :
    {W : Type 0}
    → (clock : W → W × ℕ) → (pause : W → W) → (fuel limit deadline : ℕ) → World W
    → World W × Option (List QueueMessage)
poll clock pause zero limit deadline s = (s, none)
poll clock pause (suc fuel) limit deadline s =
    let (w1, now) = clock s.outside in
    let (queue, ready) = receive_round now limit s.queue in
    let (w2, later) = clock w1 in
    let rest =
      poll clock pause fuel limit deadline (record s { outside = pause w2; queue = queue }) in
    if ltb 0 (length ready) || queue.closed
    then (record s { outside = w1; queue = queue }, some ready)
    else if leb deadline later
    then (record s { outside = w2; queue = queue }, some ready)
    else rest

-- The in-memory driver.
abbrev pub memory_driver :
    {W : Type 0} → (clock : W → W × ℕ) → (pause : W → W) → (polls : ℕ) → DrainedQueue (World W)
memory_driver clock pause polls = record {
  is_sqs = false;
  receive = λ max_messages wait s.
      let (outside, start) = clock s.outside in
      poll clock pause polls max_messages (start + wait * 1000) (record s { outside = outside });
  ack = λ message s. (record s { queue = Memory.ack message s.queue }, false);
  nack = λ message s.
      let (outside, now) = clock s.outside in
      (record s { outside = outside; queue = Memory.nack now message s.queue }, false);
}

abbrev pub sqs_driver : {S : Type 0} → Texts → SqsClient S → (default_wait : ℕ) → DrainedQueue S
sqs_driver t client default_wait = record {
  is_sqs = true;
  receive =
      λ max_messages wait s. Driver.receive t client (some max_messages) (some wait) default_wait s;
  ack = λ message s. Driver.ack t client message s;
  nack = λ message s. Driver.nack t client message s;
}

-- `assetService.download`, which leaves the queue alone.
abbrev pub download_in : {W : Type 0} → Machine W → Storage W → Download (World W)
download_in m storage id s =
    let (shelf, r) = download m storage id (record { outside = s.outside; db = s.db }) in
    (record s { outside = shelf.outside; db = shelf.db }, r)
