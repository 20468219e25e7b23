-- ===== src/Sqs.antt =====
-- The SQS driver of src/adapters/aws/SqsQueue.ts, and the job schema of src/types/jobs.ts that it
-- reads message bodies by.
pub mod Codec
pub mod Driver
pub mod Batches
pub mod Wire
