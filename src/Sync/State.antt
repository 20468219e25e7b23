-- ===== src/Sync/State.antt =====
-- The state that HashtagSyncService (src/api/services/HashtagSyncService.ts) works on, what it is
-- given, and how it ends. The database's own failures are left out.
use saral.Base.{ℕ, Bool, Option, List, String, ◌≡◌, refl, ◌⊎◌, inl, inr}
use Prim.Native.Char.{Char}
use saral.Jobs.{SyncKind}
use saral.Queue.Memory.{MemoryQueue}
use saral.Meta.RateLimit.Usage.{JsonParse}
use saral.Meta.Errors.{MetaError}
use saral.Meta.Client.Net.{Net, ClientState, Config}
use saral.Store.Tables.{Database}

pub record World (W : Type 0) : Type 0 where
  pub outside : W
  pub client : ClientState
  pub db : Database
  pub queue : MemoryQueue
  pub locks : List ℕ

-- The errors that end a sync.
pub data SyncError : Type 0 where
  meta : MetaError → SyncError
  hashtag_not_found unparseable_timestamp queue_is_closed out_of_fuel : SyncError

-- What the service uses of the runtime, of Zod and of Postgres: the network, the clock, JSON.parse,
-- the URL check, the Date constructor, the word characters of a hashtag,
-- toLowerCase, the text of an error, and the key
-- of an advisory lock, which is `hashtext` of its name.
pub record Runtime (W : Type 0) : Type 0 where
  pub net : Net W
  pub config : Config
  pub json_parse : JsonParse
  pub is_url : String → Bool
  pub clock : W → W × ℕ
  pub parse_date : String → Option ℕ
  pub in_word : Char → Bool
  pub to_lower_case : String → String
  pub message_of : SyncError → String
  pub lock_key : SyncKind → ℕ → ℕ
  pub sync_max_media_per_run : ℕ

pub record SyncOptions : Type 0 where
  pub hashtag_id : ℕ
  pub kind : SyncKind
  pub message_id : Option ℕ
  pub attempt : Option ℕ

pub record SyncOutcome : Type 0 where
  pub skipped : Bool
  pub sync_run_id : Option ℕ
  pub items_seen : ℕ
  pub items_new : ℕ
  pub asset_jobs_enqueued : ℕ

pub data Result (A : Type 0) : Type 0 where
  ok : A → Result A
  err : SyncError → Result A

pub Result-cases :
    {A : Type 0} (r : Result A) → ((e : SyncError) × (r ≡ err e)) ⊎ ((a : A) × (r ≡ ok a))
Result-cases (err e) = inl (e, refl)
Result-cases (ok a) = inr (a, refl)
