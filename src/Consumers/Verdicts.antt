-- ===== src/Consumers/Verdicts.antt =====
-- Which jobs the handlers of src/api/consumers/index.ts give up for good.
use saral.Base.{ℕ, ◌≡◌, refl, ◌↔◌, ◌⊎◌, inl, inr, Bool, none, some, arith, Option-cases}
use saral.Jobs.{SyncKind, top, recent, Job, job_type}
use saral.Queue.Port.{QueueMessage}
use saral.Worker.Process.{
  JobContext, Verdict, succeeded, unprocessable_job_error, failed, run_handler,
}
use saral.Store.Tables.{Database}
use saral.Store.Hashtags.{find_hashtag}
use saral.Sync.State.{World, Runtime}
use saral.Asset.Storage.{Attempt, got, threw, Storage}
use saral.Asset.Download.{
  DownloadResult, DownloadError, media_gone, thrown, cdn_status, no_body, size_mismatch, Machine,
  Shelf, find_post, fetched_from, url_text, download,
}
use saral.Asset.Settled.{fetch_media-ne-gone}
use saral.Store.Assets.{find_by_media_id}
use saral.Consumers.Handlers.{
  download_verdict, dispatch_handler, sync_hashtag, sync_media, download_asset, build_handlers,
}

-- The row that a job names is not there.
abbrev pub NamesNothing : Job → Database → Type 0
NamesNothing (Job.dispatch_due_syncs kind) db = ⊥
NamesNothing (Job.sync_top_hashtag_media id) db = find_hashtag id db ≡ none
NamesNothing (Job.sync_recent_hashtag_media id) db = find_hashtag id db ≡ none
NamesNothing (Job.download_media_asset id) db = find_post id db ≡ none

module _ {W : Type 0} (rt : Runtime W) (m : Machine W) (storage : Storage W) where
  download-gone_iff :
      (id : ℕ) (s : Shelf W)
      → ((download m storage id s).1 ≡ threw media_gone) ↔ (find_post id s.db ≡ none)
  unfolding download
  download-gone_iff id s = elim (Option-cases (find_post id s.db)) [
    | inl h ↦ rw (h, download) ((λ e. refl), (λ e. refl))
    | inr (media, h) ↦
        let url = url_text (fetched_from (find_by_media_id id s.db) media.source_media_url) in
        let begun = fetch_media-ne-gone m storage id url s in ground arith
  ]

  gone_iff :
      (r : Attempt DownloadResult DownloadError)
      → (download_verdict r ≡ unprocessable_job_error) ↔ (r ≡ threw media_gone)
  gone_iff (got r) = (λ h. cc, λ h. cc)
  gone_iff (threw media_gone) = (λ h. refl, λ h. refl)
  gone_iff (threw (cdn_status n)) = (λ h. cc, λ h. cc)
  gone_iff (threw no_body) = (λ h. cc, λ h. cc)
  gone_iff (threw (size_mismatch a b)) = (λ h. cc, λ h. cc)
  gone_iff (threw (thrown e)) = (λ h. cc, λ h. cc)

  sync_hashtag_iff :
      (kind : SyncKind) (id : ℕ) (context : JobContext) (s : World W)
      → ((sync_hashtag rt m storage kind id context s).1 ≡ unprocessable_job_error)
        ↔ (find_hashtag id s.db ≡ none)
  unfolding sync_hashtag
  sync_hashtag_iff kind id context s = elim (Option-cases (find_hashtag id s.db)) [
    | inl h ↦ ground arith
    | inr (tag, h) ↦ ground arith
  ]

  abbrev Classified : Job → World W → Verdict → Type 0
  Classified job s v =
      ((v ≡ unprocessable_job_error) ↔ NamesNothing job s.db)
      × ((v ≡ unprocessable_job_error) ⊎ (v ≡ succeeded) ⊎ (v ≡ failed))

  dispatch-Classified :
      (kind : SyncKind) (context : JobContext) (s : World W)
      → Classified
          (Job.dispatch_due_syncs kind)
          s
          (dispatch_handler rt m storage (Job.dispatch_due_syncs kind) context s).1
  unfolding dispatch_handler
  dispatch-Classified kind context s = ground arith

  sync_hashtag_verdict :
      (kind : SyncKind) (id : ℕ) (context : JobContext) (s : World W)
      → let v = (sync_hashtag rt m storage kind id context s).1 in
        (v ≡ unprocessable_job_error) ⊎ (v ≡ succeeded) ⊎ (v ≡ failed)
  unfolding sync_hashtag
  sync_hashtag_verdict kind id context s = ground arith

  download_verdict_cases :
      (r : Attempt DownloadResult DownloadError)
      → let v = download_verdict r in (v ≡ unprocessable_job_error) ⊎ (v ≡ succeeded) ⊎ (v ≡ failed)
  download_verdict_cases r = ground arith

  download-Classified :
      (id : ℕ) (context : JobContext) (s : World W)
      → Classified
          (Job.download_media_asset id)
          s
          (download_asset rt m storage (Job.download_media_asset id) context s).1
  unfolding download_asset
  download-Classified id context s =
      let shelf : Shelf W = record { outside = s.outside; db = s.db } in
      let r = (download m storage id shelf).1 in
      let (to_gone, from_gone) = gone_iff r in
      let (to_none, from_none) = download-gone_iff id shelf in
      ((λ h. to_none (to_gone h), λ h. from_gone (from_none h)), download_verdict_cases r)

  -- Every type of job has a handler, so that the worker drops none for want of one. A handler
  -- gives a job up for good exactly if the row that the job names, its hashtag or its post, is
  -- not there; otherwise it succeeds or fails.
  pub build_handlers-gives_up_iff :
      (message : QueueMessage) (aborted : Bool) (s : World W)
      → (s' : World W) × (v : Verdict) × (run_handler message
            (build_handlers rt m storage)
            aborted
            s
          ≡ some (s', v))
        × ((v ≡ unprocessable_job_error) ↔ NamesNothing message.job s.db)
        × ((v ≡ unprocessable_job_error) ⊎ (v ≡ succeeded) ⊎ (v ≡ failed))
  unfolding build_handlers sync_media
  build_handlers-gives_up_iff message aborted s =
      let context : JobContext = record {
        message_id = message.id;
        attempt = message.received_count;
        aborted = aborted;
      } in
      handled message.job context
    where
      handled :
          (job : Job) (context : JobContext)
          → (s' : World W) × (v : Verdict) × ((elim (build_handlers rt m storage (job_type job)) [
            | none ↦ none
            | some handler ↦ some (handler job context s)
          ])
              ≡ some (s', v))
            × ((v ≡ unprocessable_job_error) ↔ NamesNothing job s.db)
            × ((v ≡ unprocessable_job_error) ⊎ (v ≡ succeeded) ⊎ (v ≡ failed))
      handled (Job.dispatch_due_syncs kind) context =
          let (iff, cases) = dispatch-Classified kind context s in (_, _, refl, iff, cases)
      handled (Job.sync_top_hashtag_media id) context =
          (_, _, refl, sync_hashtag_iff top id context s, sync_hashtag_verdict top id context s)
      handled (Job.sync_recent_hashtag_media id) context = (
        _,
        _,
        refl,
        sync_hashtag_iff recent id context s,
        sync_hashtag_verdict recent id context s,
      )
      handled (Job.download_media_asset id) context =
          let (iff, cases) = download-Classified id context s in (_, _, refl, iff, cases)
