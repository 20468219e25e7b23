-- ===== src/Sqs/Codec.antt =====
-- A job as JSON, and back: what `JSON.stringify(job)` writes, and `jobSchema` of src/types/jobs.ts.
-- Zod's own reading of a uuid, and the text of one, are arguments.
use saral.Base.{ℕ, ◌≡◌, refl, Option, none, some, String, if◌then◌else◌}
use mathlib.Core.Option
use text.Mathlib.Text.{◌==◌ as str_eq}
use saral.Json.{Json, Fields, str, obj, end, field, property}
use saral.Jobs.{SyncKind, top, recent, JobType, Job, job_type}
use saral.Meta.Schema.{◌>>=◌, as_string, required}

-- The values of the constant `JobType`.
abbrev pub type_text : JobType → String
type_text JobType.dispatch_due_syncs = "DISPATCH_DUE_SYNCS"
type_text JobType.sync_top_hashtag_media = "SYNC_TOP_HASHTAG_MEDIA"
type_text JobType.sync_recent_hashtag_media = "SYNC_RECENT_HASHTAG_MEDIA"
type_text JobType.download_media_asset = "DOWNLOAD_MEDIA_ASSET"

abbrev pub kind_text : SyncKind → String
kind_text top = "top"
kind_text recent = "recent"

-- `z.enum(['top', 'recent'])`.
unfoldable pub kind_schema : Json → Option SyncKind
kind_schema (str s) =
    if str_eq s "top" then some top else if str_eq s "recent" then some recent else none
kind_schema _ = none

module _ (uuid_of : String → Option ℕ) where
  -- `z.string().uuid()`.
  abbrev pub uuid_schema : Json → Option ℕ
  uuid_schema v = as_string v >>= uuid_of

  -- The member of the union that the discriminator names.
  unfoldable pub member_schema : String → Fields → Option Job
  unfolding kind_schema property
  member_schema t fs =
      if str_eq t "DISPATCH_DUE_SYNCS"
      then Option.map Job.dispatch_due_syncs (required kind_schema (property "kind" fs))
      else if str_eq t "SYNC_TOP_HASHTAG_MEDIA"
      then Option.map Job.sync_top_hashtag_media (required uuid_schema (property "hashtagId" fs))
      else if str_eq t "SYNC_RECENT_HASHTAG_MEDIA"
      then Option.map Job.sync_recent_hashtag_media (required uuid_schema (property "hashtagId" fs))
      else if str_eq t "DOWNLOAD_MEDIA_ASSET"
      then Option.map Job.download_media_asset (required uuid_schema (property "mediaId" fs))
      else none

  -- `jobSchema.safeParse`; `none` is a failure.
  unfoldable pub job_schema : Json → Option Job
  unfolding member_schema property
  job_schema (obj fs) = required as_string (property "type" fs) >>= λ t. member_schema t fs
  job_schema _ = none

-- The fields of a job beside its type.
unfoldable pub payload : (uuid_text : ℕ → String) → Job → Fields
payload uuid_text (Job.dispatch_due_syncs kind) = field "kind" (str (kind_text kind)) end
payload uuid_text (Job.sync_top_hashtag_media id) = field "hashtagId" (str (uuid_text id)) end
payload uuid_text (Job.sync_recent_hashtag_media id) = field "hashtagId" (str (uuid_text id)) end
payload uuid_text (Job.download_media_asset id) = field "mediaId" (str (uuid_text id)) end

-- The object that a job is.
unfoldable pub job_json : (uuid_text : ℕ → String) → Job → Json
unfolding payload
job_json uuid_text job = obj (field "type" (str (type_text (job_type job))) (payload uuid_text job))

-- The schema reads back what a job was written as.
pub job_schema-job_json :
    (uuid_of : String → Option ℕ) (uuid_text : ℕ → String)
    → ((id : ℕ) → uuid_of (uuid_text id) ≡ some id)
    → (job : Job) → job_schema uuid_of (job_json uuid_text job) ≡ some job
unfolding job_schema job_json
job_schema-job_json uuid_of uuid_text read (Job.dispatch_due_syncs top) = refl
job_schema-job_json uuid_of uuid_text read (Job.dispatch_due_syncs recent) = refl
job_schema-job_json uuid_of uuid_text read (Job.sync_top_hashtag_media id) = rw (read id)
job_schema-job_json uuid_of uuid_text read (Job.sync_recent_hashtag_media id) = rw (read id)
job_schema-job_json uuid_of uuid_text read (Job.download_media_asset id) = rw (read id)
