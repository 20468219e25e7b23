-- ===== src/Sync/Frame.antt =====
-- What the item loop of HashtagSyncService.runSync (src/api/services/HashtagSyncService.ts) leaves
-- as it was, and how a relation between worlds passes from an item to the loop.
use saral.Base.{
  ℕ, ◌+◌, ◌≡◌, refl, ◌∙◌, Option, List, [], ◌∷◌, String, arith, Option-cases, inl, inr,
}
use saral.Meta.Schema.{MetaMedia}
use saral.Store.Media.{upsert_media, upsert_observation}
use saral.Store.Assets.{ensure_pending}
use saral.Meta.Timestamp.{parse_meta_timestamp}
use saral.Sync.State.{World, Runtime, Result-cases}
use saral.Sync.Items.{
  PageTally, RunContext, enqueue_download, ensure_download, sync_item, sync_items,
}

module _ {W : Type 0} (rt : Runtime W) (run : RunContext) (R : World W → World W → Type 0) where
  -- A relation that holds across each item, and composes, holds across the loop.
  pub sync_items-lift :
      ((s : World W) → R s s)
      → ((a b c : World W) → R a b → R b c → R a c)
      → ((item : MetaMedia) (rank : ℕ) (t : PageTally) (s : World W)
          → R s (sync_item rt run item rank t s).0)
      → (items : List MetaMedia) (rank : ℕ) (t : PageTally) (s : World W)
      → R s (sync_items rt run items rank t s).0
  unfolding sync_items
  sync_items-lift id comp step [] rank t s = id s
  sync_items-lift id comp step (item ∷ items) rank t s =
      elim (Result-cases (sync_item rt run item rank t s).1) [
        | inl (e, h) ↦ rw (h, sync_items) (step item rank t s)
        | inr (t1, h) ↦
            let s1 = (sync_item rt run item rank t s).0 in
            rw (h, sync_items)
              (comp s s1 _ (step item rank t s)
                (sync_items-lift id comp step items (rank + 1) t1 s1))
      ]

-- What the writes of an item do not touch.
abbrev pub SameRuns : {W : Type 0} → World W → World W → Type 0
SameRuns s s' =
    (s'.db.sync_runs ≡ s.db.sync_runs)
    × (s'.db.data_points ≡ s.db.data_points)
    × (s'.db.hashtags ≡ s.db.hashtags)
    × (s'.locks ≡ s.locks)

module _ {W : Type 0} (rt : Runtime W) (run : RunContext) where
  enqueue_download-frame :
      (media_id : ℕ) (t : PageTally) (s : World W)
      → SameRuns s (enqueue_download rt run media_id t s).0
  unfolding enqueue_download
  enqueue_download-frame media_id t s = ground arith

  ensure_download-frame :
      (url : Option String) (media_id : ℕ) (t : PageTally) (s : World W)
      → SameRuns s (ensure_download rt run url media_id t s).0
  unfolding ensure_download ensure_pending enqueue_download
  ensure_download-frame url media_id t s = ground arith

  sync_item-frame :
      (item : MetaMedia) (rank : ℕ) (t : PageTally) (s : World W)
      → SameRuns s (sync_item rt run item rank t s).0
  unfolding sync_item upsert_media upsert_observation
  sync_item-frame item rank t s =
      elim (Option-cases (parse_meta_timestamp rt.parse_date item.timestamp)) [
        | inl h ↦ rw (h, sync_item) (refl, refl, refl, refl)
        | inr (x, h) ↦ rw (h, sync_item) (ensure_download-frame item.media_url _ _ _)
      ]

  pub sync_items-frame :
      (items : List MetaMedia) (rank : ℕ) (t : PageTally) (s : World W)
      → SameRuns s (sync_items rt run items rank t s).0
  sync_items-frame =
      sync_items-lift rt run SameRuns (λ s. (refl, refl, refl, refl))
        (λ a b c h k. (k.0 ∙ h.0, k.1 ∙ h.1, k.2 ∙ h.2, k.3 ∙ h.3)) sync_item-frame
