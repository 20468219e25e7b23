-- ===== src/Sync/Accounting.antt =====
-- What the counters of a sync and the row of its run say of the tables and of the queue
-- (src/api/services/HashtagSyncService.ts, src/api/repositories/SyncRunRepository.ts,
-- src/api/repositories/DataPointRepository.ts).
use saral.Base.{
  ℕ, zero, suc, ◌+◌, ◌≤◌, ◌≡◌, refl, ap, ◌∙◌, ◌⊎◌, inl, inr, ◌&&◌, Option, none, some, List, [],
  ◌∷◌, String, arith, leb, length, length-append, Option-cases, Bool-cases,
}
use saral.Meta.Schema.{MetaMedia}
use saral.Meta.Client.Paginate.{
  PaginateOptions, MediaPage, Walk, Next, page, finished, failed, stuck, next_page, truthy,
}
use saral.Jobs.{SyncKind, Job}
use saral.Queue.Memory.{Envelope, enqueue}
use saral.Store.Media.{upsert_media}
use saral.Store.Assets.{ensure_pending}
use saral.Store.Tables.{Database, SyncRun}
use saral.Store.Rows.{find-update_where}
use saral.Store.Runs.{
  PageDelta, has_id, add_page, find_run, page_rows, record_page, record_page_progress,
}
use saral.Meta.Timestamp.{parse_meta_timestamp}
use saral.Sync.State.{World, SyncError, Runtime, Result, ok, err, Result-cases}
use saral.Sync.Items.{
  PageTally, no_tally, RunContext, read_clock, enqueue_download, ensure_download, sync_item,
  sync_items,
}
use saral.Sync.Pages.{Progress, finish_page, write_raw, sync_page, sync_pages}
use saral.Sync.Frame.{sync_items-frame}

length-page_rows :
    (now run_id tag : ℕ) (source : SyncKind) (page_number offset drawn index : ℕ)
    (items : List MetaMedia)
    → length (page_rows now run_id tag source page_number offset drawn index items) ≡ length items
unfolding page_rows
length-page_rows now run_id tag source page_number offset drawn index [] = refl
length-page_rows now run_id tag source page_number offset drawn index (i ∷ items) =
    ground
      (arith, length-page_rows now run_id tag source page_number offset drawn (index + 1) items)

abbrev queued : {W : Type 0} → World W → ℕ
queued s = length s.queue.messages

module _ {W : Type 0} (rt : Runtime W) (run : RunContext) where
  -- The jobs that an item's tally counts are in the queue; the queue loses none.
  abbrev CountsJobs : World W → World W → PageTally → Result PageTally → Type 0
  CountsJobs s s' t (err e) = queued s ≤ queued s'
  CountsJobs s s' t (ok t') =
      queued s' + t.page_asset_jobs ≡ queued s + t'.page_asset_jobs
      × t.page_asset_jobs ≤ t'.page_asset_jobs

  abbrev new_message : ℕ → World W → Envelope
  new_message media_id s = record {
    id = s.queue.drawn;
    job = Job.download_media_asset media_id;
    receipt_handle = s.queue.drawn + 1;
    received_count = 0;
    visible_at = (rt.clock s.outside).1 + 0;
  }

  enqueue_download-jobs :
      (media_id : ℕ) (t : PageTally) (s : World W)
      → let (s', r) = enqueue_download rt run media_id t s in CountsJobs s s' t r
  unfolding enqueue_download enqueue
  enqueue_download-jobs media_id t s = elim (Bool-cases s.queue.closed) [
    | inl e ↦ rw (e, enqueue_download) (omega arith)
    | inr e ↦
        rw (e, enqueue_download)
          (rw (length-append s.queue.messages (new_message media_id s ∷ [])) (omega arith))
  ]

  ensure_download-jobs :
      (url : Option String) (media_id : ℕ) (t : PageTally) (s : World W)
      → let (s', r) = ensure_download rt run url media_id t s in CountsJobs s s' t r
  unfolding ensure_download
  ensure_download-jobs url media_id t s =
      let (s1, now) = read_clock rt run s in
      let (db, id, created) = ensure_pending now media_id url s1.db in
      elim (Bool-cases (created && truthy url)) [
        | inl e ↦ rw (e, ensure_download) (enqueue_download-jobs media_id t (record s1 { db = db }))
        | inr e ↦ rw (e, ensure_download) (omega arith)
      ]

  sync_item-jobs :
      (item : MetaMedia) (rank : ℕ) (t : PageTally) (s : World W)
      → let (s', r) = sync_item rt run item rank t s in CountsJobs s s' t r
  unfolding sync_item upsert_media
  sync_item-jobs item rank t s =
      elim (Option-cases (parse_meta_timestamp rt.parse_date item.timestamp)) [
        | inl h ↦ rw (h, sync_item) (omega arith)
        | inr (x, h) ↦ rw (h, sync_item) (ensure_download-jobs item.media_url _ _ _)
      ]

  CountsJobs-trans :
      (a b c : World W) (t u : PageTally) (r : Result PageTally)
      → CountsJobs a b t (ok u)
      → CountsJobs b c u r
      → CountsJobs a c t r
  CountsJobs-trans a b c t u (err e) h k = omega arith
  CountsJobs-trans a b c t u (ok v) h k = omega arith

  sync_items-jobs :
      (items : List MetaMedia) (rank : ℕ) (t : PageTally) (s : World W)
      → let (s', r) = sync_items rt run items rank t s in CountsJobs s s' t r
  unfolding sync_items
  sync_items-jobs [] rank t s = omega arith
  sync_items-jobs (item ∷ items) rank t s =
      let s1 = (sync_item rt run item rank t s).0 in
      let step = sync_item-jobs item rank t s in
      elim (Result-cases (sync_item rt run item rank t s).1) [
        | inl (e, h) ↦ rw (h, sync_items) (rw h at step)
        | inr (t1, h) ↦
            rw (h, sync_items)
              (CountsJobs-trans s s1 (sync_items rt run items (rank + 1) t1 s1).0 t t1
                (sync_items rt run items (rank + 1) t1 s1).1 (rw h at step)
                (sync_items-jobs items (rank + 1) t1 s1))
      ]

-- Across a part of the loop that takes the counters from `acc` to `acc'`: the raw rows and the
-- queue have at least what the counters say, and exactly that where no error stopped it.
abbrev pub Accounts :
    {W : Type 0} → World W → Progress → World W × Progress × Option SyncError → Type 0
Accounts s acc (s', acc', stop) =
    (acc.items_seen ≤ acc'.items_seen)
    × (length s.db.data_points + acc'.items_seen ≤ length s'.db.data_points + acc.items_seen)
    × (queued s + acc'.asset_jobs_enqueued ≤ queued s' + acc.asset_jobs_enqueued)
    × (((e : SyncError) × (stop ≡ some e))
        ⊎ ((length s.db.data_points + acc'.items_seen ≡ length s'.db.data_points + acc.items_seen)
            × (queued s + acc'.asset_jobs_enqueued ≡ queued s' + acc.asset_jobs_enqueued)))

-- The row of the run says what the counters say. The counters of new posts and of download jobs
-- start at 0 where a run is resumed, so that the row is ahead of them by what it had then.
abbrev pub RowSays : ℕ → (new_before jobs_before : ℕ) → Progress → Database → Type 0
RowSays id new_before jobs_before acc db =
    (row : SyncRun) × (find_run id db ≡ some row)
    × (row.items_seen ≡ acc.items_seen)
    × (row.items_new ≡ new_before + acc.items_new)
    × (row.asset_jobs_enqueued ≡ jobs_before + acc.asset_jobs_enqueued)

module _ {W : Type 0} (rt : Runtime W) (run : RunContext) (max_items : ℕ) where
  write_raw-length :
      (p : MediaPage) (offset : ℕ) (s : World W)
      → length (write_raw rt run max_items p offset s).db.data_points
        ≡ length s.db.data_points + length p.items
  unfolding record_page
  write_raw-length p offset s =
      length-append s.db.data_points _
      ∙ ap (λ n. length s.db.data_points + n)
          (length-page_rows _ run.run_id run.hashtag_id run.kind p.page_number offset s.db.drawn 0
            p.items)

  sync_page-Accounts :
      (p : MediaPage) (acc : Progress) (s : World W)
      → Accounts s acc (sync_page rt run max_items p acc s)
  unfolding sync_page finish_page record_page_progress
  sync_page-Accounts p acc s =
      let raw = write_raw rt run max_items p acc.items_seen s in
      let added = write_raw-length p acc.items_seen s in
      let (s2, r) = sync_items rt run p.items (acc.items_seen + 1) no_tally raw in
      let frame = sync_items-frame rt run p.items (acc.items_seen + 1) no_tally raw in
      let jobs = sync_items-jobs rt run p.items (acc.items_seen + 1) no_tally raw in
      elim (Result-cases r) [
        | inl (e, h) ↦
            let grown : queued raw ≤ queued s2 = rw h at jobs in
            let kept = ap length frame.1 in
            rw (h, sync_page) (omega arith, omega arith, omega arith, inl (e, refl))
        | inr (t, h) ↦
            let counted : CountsJobs rt run raw s2 no_tally (ok t) = rw h at jobs in
            let kept = ap length frame.1 in
            rw (h, sync_page)
              (omega arith, omega arith, omega arith, inr (omega arith, omega arith))
      ]

  abbrev delta_of : MediaPage → PageTally → PageDelta
  delta_of p t = record {
    items_seen = length p.items;
    items_new = t.page_new;
    items_updated = t.page_updated;
    metrics_recorded = t.page_history;
    asset_jobs_enqueued = t.page_asset_jobs;
    last_cursor = p.next_cursor;
    rate_limit = p.rate_limit;
  }

  sync_page-says :
      (n j : ℕ) (p : MediaPage) (acc : Progress) (s : World W)
      → RowSays run.run_id n j acc s.db
      → RowSays run.run_id n j
          (sync_page rt run max_items p acc s).1
          (sync_page rt run max_items p acc s).0.db
  unfolding sync_page finish_page record_page_progress record_page
  sync_page-says n j p acc s (row, there, seen, new, jobs) =
      let raw = write_raw rt run max_items p acc.items_seen s in
      let (s2, r) = sync_items rt run p.items (acc.items_seen + 1) no_tally raw in
      let frame = sync_items-frame rt run p.items (acc.items_seen + 1) no_tally raw in
      elim (Result-cases r) [
        | inl (e, h) ↦ rw (h, sync_page) (row, rw frame.0 there, seen, new, jobs)
        | inr (t, h) ↦
            rw (h, sync_page)
              (
                add_page (delta_of p t) row,
                find-update_where (has_id run.run_id) (add_page (delta_of p t))
                    (λ x. unfold add_page in refl) s2.db.sync_runs row (rw frame.0 there),
                unfold add_page in ap (λ k. k + length p.items) seen,
                unfold add_page in omega (arith, new),
                unfold add_page in omega (arith, jobs),
              )
      ]

  Accounts-trans :
      (s : World W) (acc : Progress) (s1 : World W) (acc1 : Progress)
      (end : World W × Progress × Option SyncError)
      → Accounts s acc (s1, acc1, none)
      → Accounts s1 acc1 end
      → Accounts s acc end
  Accounts-trans s acc s1 acc1 (s2, acc2, stop) h k = ground arith

  -- The loop over the pages of a sync from any point on, if the row of the run says what the counters
  -- say: at the end it still does, of the items seen, the new posts and the download jobs, the last two
  -- counted from what the row had when the run was taken up. What is newly counted as seen has its raw
  -- row, and what is newly counted as a download job has its message in the queue; where the loop ends
  -- without an error, there are no more new raw rows and no more new messages than are counted.
  pub sync_pages-Accounts :
      (n j fuel : ℕ) (options : PaginateOptions) (walk : Walk) (acc : Progress) (s : World W)
      → RowSays run.run_id n j acc s.db
      → let end = sync_pages rt run max_items fuel options walk acc s in
        Accounts s acc end × RowSays run.run_id n j end.1 end.0.db
  unfolding sync_pages
  sync_pages-Accounts n j zero options walk acc s says = (ground arith, says)
  sync_pages-Accounts n j (suc fuel) options walk acc s says =
      split (λ walk' acc' s2 h. sync_pages-Accounts n j fuel options walk' acc' s2 h)
        (next_page rt.net rt.config rt.json_parse rt.is_url options walk s.outside s.client).2 refl
    where
      split :
          ((walk' : Walk) (acc' : Progress) (s2 : World W)
            → RowSays run.run_id n j acc' s2.db
            → let end = sync_pages rt run max_items fuel options walk' acc' s2 in
              Accounts s2 acc' end × RowSays run.run_id n j end.1 end.0.db)
          → (next : Next)
          → (next_page rt.net rt.config rt.json_parse rt.is_url options walk s.outside s.client).2
            ≡ next
          → let end = sync_pages rt run max_items (suc fuel) options walk acc s in
            Accounts s acc end × RowSays run.run_id n j end.1 end.0.db
      split rest finished e = rw (e, sync_pages) (ground arith, says)
      split rest (failed x) e = rw (e, sync_pages) (ground arith, says)
      split rest stuck e = rw (e, sync_pages) (ground arith, says)
      split rest (page p walk') e =
          let (outside, client, _) =
            next_page rt.net rt.config rt.json_parse rt.is_url options walk s.outside s.client in
          let s1 : World W = record s { outside = outside; client = client } in
          let (s2, acc', stop) = sync_page rt run max_items p acc s1 in
          let step = sync_page-Accounts p acc s1 in
          let said = sync_page-says n j p acc s1 says in
          elim (Option-cases stop) [
            | inr (x, h) ↦ rw (e, sync_pages) (rw (h, sync_pages) (rw h at step, said))
            | inl h ↦
                let (deeper, row) = rest walk' acc' s2 said in
                elim (Bool-cases (leb max_items acc'.items_seen)) [
                  | inl full ↦ rw (e, sync_pages) (rw (h, full, sync_pages) (rw h at step, said))
                  | inr room ↦
                      rw (e, sync_pages)
                        (rw (h, room, sync_pages)
                          (
                            Accounts-trans s acc s2 acc'
                                (sync_pages rt run max_items fuel options walk' acc' s2)
                                (rw h at step) deeper,
                            row,
                          ))
                ]
          ]
