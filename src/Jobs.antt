-- ===== src/Jobs.antt =====
-- The job payloads of src/types/jobs.ts. A uuid is the number that its 128 bits spell.
use saral.Base.{ℕ, Option, none, some}

-- `z.enum(['top', 'recent'])`, and the enum `media_source`.
pub data SyncKind : Type 0 where
  top recent : SyncKind

pub data JobType : Type 0 where
  dispatch_due_syncs sync_top_hashtag_media sync_recent_hashtag_media download_media_asset : JobType

-- `z.discriminatedUnion('type', …)`: the payload of each job.
pub data Job : Type 0 where
  dispatch_due_syncs : (kind : SyncKind) → Job
  sync_top_hashtag_media : (hashtag_id : ℕ) → Job
  sync_recent_hashtag_media : (hashtag_id : ℕ) → Job
  download_media_asset : (media_id : ℕ) → Job

-- `job.type`.
abbrev pub job_type : Job → JobType
job_type (Job.dispatch_due_syncs kind) = JobType.dispatch_due_syncs
job_type (Job.sync_top_hashtag_media id) = JobType.sync_top_hashtag_media
job_type (Job.sync_recent_hashtag_media id) = JobType.sync_recent_hashtag_media
job_type (Job.download_media_asset id) = JobType.download_media_asset

unfoldable pub sync_kind_for : JobType → Option SyncKind
sync_kind_for JobType.sync_top_hashtag_media = some top
sync_kind_for JobType.sync_recent_hashtag_media = some recent
sync_kind_for _ = none
