-- ===== src/Tests/Commands.antt =====
-- The command-line programs at concrete inputs (commands).
use saral.Base.{ℕ, ◌+◌, ◌≤◌, ◌≡◌, refl, none, some, [], ◌∷◌, arith, length}
use saral.Jobs.{Job}
use saral.Queue.Memory
use saral.Queue.Memory.{
  Envelope, MemoryQueue, receive_round, scan, visit, deliver, map_set, map_get, map_delete,
}
use saral.Queue.Budget.{budget, every}
use saral.Asset.Download.{download}
use saral.Sync.State.{World}
use saral.Commands.Drain.{
  DrainSummary, finished, drain_asset_jobs, memory_driver, poll, download_in,
}
use saral.Commands.Draining.{total, drain_asset_jobs_finishes}
use saral.Tests.Tables.{empty_queue, machine, disk}
use saral.Tests.Syncing.{world}

abbrev waiting_job : ℕ → Job → Envelope
waiting_job id job = record {
  id = id;
  job = job;
  receipt_handle = id;
  received_count = 0;
  visible_at = 0;
}

abbrev two_jobs : World ℕ
two_jobs = record world {
  queue = record empty_queue {
    messages =
        waiting_job 0 (Job.download_media_asset 77)
        ∷ waiting_job 2 (Job.sync_top_hashtag_media 5)
        ∷ [];
    drawn = 4;
    max_receive_count = 3;
  };
}

abbrev no_pause : ℕ → ℕ
no_pause w = w

drain_asset_jobs_finishes_example :
    let (s', r) =
      drain_asset_jobs
        (memory_driver machine.clock no_pause 3001)
        (download_in machine disk)
        8
        none
        (some 3)
        two_jobs in
    (n : DrainSummary) × (r ≡ finished n)
    × (total n + budget every s'.queue ≤ budget every two_jobs.queue)
drain_asset_jobs_finishes_example =
    drain_asset_jobs_finishes machine disk no_pause 3001 (some 3) 8 two_jobs
      (record { not_back = λ w. omega arith; paused = λ w. omega arith }) (omega arith)
      (omega arith)

-- The job that is not a download is handed back until the queue gives it up.
drain_buries_other_jobs :
    length
      (drain_asset_jobs
        (memory_driver machine.clock no_pause 3001)
        (download_in machine disk)
        8
        none
        none
        two_jobs).0.queue.dead_letters
    ≡ 1
unfolding drain_asset_jobs poll receive_round scan visit deliver map_set map_get map_delete
    Memory.nack Memory.ack download
drain_buries_other_jobs = refl
