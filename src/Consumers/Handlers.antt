-- ===== src/Consumers/Handlers.antt =====
-- buildHandlers of src/api/consumers/index.ts, over the state that the sync service works on.
use saral.Base.{ℕ, true, false, none, some}
use saral.Jobs.{SyncKind, top, recent, Job, JobType}
use saral.Worker.Process.{
  JobContext, Verdict, succeeded, unprocessable_job_error, failed, Handler, Handlers,
}
use saral.Store.Hashtags.{find_hashtag}
use saral.Sync.State.{World, Runtime, SyncOutcome, Result, ok, err}
use saral.Sync.Service.{sync}
use saral.Asset.Storage.{Attempt, got, threw, Storage}
use saral.Asset.Download.{DownloadResult, DownloadError, media_gone, Machine, download}
use saral.Schedule.Dispatch.{dispatch_due_syncs}

-- How an error class that a handler throws is seen by the worker.
abbrev pub sync_verdict : Result SyncOutcome → Verdict
sync_verdict (ok o) = succeeded
sync_verdict (err e) = failed

abbrev pub download_verdict : Attempt DownloadResult DownloadError → Verdict
download_verdict (got r) = succeeded
download_verdict (threw media_gone) = unprocessable_job_error
download_verdict (threw e) = failed

module _ {W : Type 0} (rt : Runtime W) (m : Machine W) (storage : Storage W) where
  -- A job of another type is left alone.
  unfoldable pub dispatch_handler : Handler (World W)
  dispatch_handler job context s =
      let (outside, now) = rt.clock s.outside in
      let (queue, throws) = dispatch_due_syncs now job s.db s.queue in
      (
        record s { outside = outside; queue = queue },
        elim throws [ true ↦ failed | false ↦ succeeded ],
      )

  unfoldable pub sync_hashtag :
      SyncKind → (hashtag_id : ℕ) → JobContext → World W → World W × Verdict
  sync_hashtag kind hashtag_id context s =
      let (s1, r) =
        sync rt
          (record {
            hashtag_id = hashtag_id;
            kind = kind;
            message_id = some context.message_id;
            attempt = some context.attempt;
          })
          s in
      elim (find_hashtag hashtag_id s.db) [
        | none ↦ (s, unprocessable_job_error)
        | some h ↦ (s1, sync_verdict r)
      ]

  unfoldable pub sync_media : Handler (World W)
  unfolding sync_hashtag
  sync_media (Job.sync_top_hashtag_media id) context s = sync_hashtag top id context s
  sync_media (Job.sync_recent_hashtag_media id) context s = sync_hashtag recent id context s
  sync_media job context s = (s, succeeded)

  unfoldable pub download_asset : Handler (World W)
  download_asset (Job.download_media_asset id) context s =
      let (shelf, r) = download m storage id (record { outside = s.outside; db = s.db }) in
      (record s { outside = shelf.outside; db = shelf.db }, download_verdict r)
  download_asset job context s = (s, succeeded)

  unfoldable pub build_handlers : Handlers (World W)
  build_handlers JobType.dispatch_due_syncs = some dispatch_handler
  build_handlers JobType.sync_top_hashtag_media = some sync_media
  build_handlers JobType.sync_recent_hashtag_media = some sync_media
  build_handlers JobType.download_media_asset = some download_asset
