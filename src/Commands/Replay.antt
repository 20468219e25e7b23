-- ===== src/Commands/Replay.antt =====
-- commands/replay.ts: the curated tables of a run from the raw payloads that it recorded.
use saral.Base.{ℕ, ◌+◌, none, some, List, [], ◌∷◌}
use saral.Meta.Schema.{MetaMedia, meta_media}
use saral.Meta.Payload.{media_json}
use saral.Meta.Timestamp.{parse_meta_timestamp}
use saral.Caption.Parser.{parse_caption_arrays}
use saral.Asset.Storage.{Attempt, got, threw}
use saral.Store.Tables.{SyncRun, DataPoint}
use saral.Store.Media.{UpsertMediaResult, upsert_media}
use saral.Store.Runs.{find_run}
use saral.Store.Reads.{find_by_run_id}
use saral.Sync.State.{World, Runtime}
use saral.Sync.Items.{one_if}

pub data ReplayError : Type 0 where
  sync_run_not_found nothing_to_replay unparseable_timestamp : ReplayError

-- The counters of the loop.
pub record ReplayCount : Type 0 where
  pub reprocessed : ℕ
  pub created : ℕ
  pub changed : ℕ
  pub invalid : ℕ

abbrev pub no_count : ReplayCount
no_count = record { reprocessed = 0; created = 0; changed = 0; invalid = 0 }

abbrev pub count_invalid : ReplayCount → ReplayCount
count_invalid n = record n { invalid = n.invalid + 1 }

abbrev pub count_upsert : UpsertMediaResult → ReplayCount → ReplayCount
count_upsert r n = record n {
  reprocessed = n.reprocessed + 1;
  created = n.created + one_if r.is_new;
  changed = n.changed + one_if r.content_changed;
}

module _ {W : Type 0} (rt : Runtime W) (run : SyncRun) where
  -- `MediaRepository.upsertMedia` of a payload that passed; its rank is its place in the response.
  unfoldable pub replay_media :
      DataPoint → MetaMedia → ReplayCount → World W → World W × Attempt ReplayCount ReplayError
  replay_media payload media n s =
      let (outside, now) = rt.clock s.outside in
      elim (upsert_media (parse_meta_timestamp rt.parse_date)
        (parse_caption_arrays rt.in_word rt.to_lower_case) now
        (record {
          media = media;
          hashtag_id = payload.hashtag_id;
          sync_run_id = run.id;
          source = run.type;
          rank = payload.position_overall + 1;
        })
        s.db) [
          | none ↦ (record s { outside = outside }, threw unparseable_timestamp)
          | some (db, r) ↦ (record s { outside = outside; db = db }, got (count_upsert r n))
        ]

  -- The body of the loop: a stored payload that does not validate is counted and skipped.
  unfoldable pub replay_payload :
      DataPoint → ReplayCount → World W → World W × Attempt ReplayCount ReplayError
  replay_payload payload n s = elim (meta_media rt.is_url (media_json payload.payload)) [
    | none ↦ (s, got (count_invalid n))
    | some media ↦ replay_media payload media n s
  ]

  unfoldable pub replay_payloads :
      List DataPoint → ReplayCount → World W → World W × Attempt ReplayCount ReplayError
  replay_payloads [] n s = (s, got n)
  replay_payloads (payload ∷ payloads) n s =
      let (s1, r) = replay_payload payload n s in
      elim r [ threw e ↦ (s1, threw e) | got n1 ↦ replay_payloads payloads n1 s1 ]

-- The run's own payloads, of which there has to be one.
abbrev pub replay_found :
    {W : Type 0}
    → Runtime W
    → SyncRun
    → List DataPoint
    → World W
    → World W × Attempt ReplayCount ReplayError
replay_found rt run [] s = (s, threw nothing_to_replay)
replay_found rt run (payload ∷ payloads) s = replay_payloads rt run (payload ∷ payloads) no_count s

unfoldable pub replay :
    {W : Type 0} → Runtime W → ℕ → World W → World W × Attempt ReplayCount ReplayError
replay rt run_id s = elim (find_run run_id s.db) [
  | none ↦ (s, threw sync_run_not_found)
  | some run ↦ replay_found rt run (find_by_run_id run_id s.db) s
]
