-- ===== src/Queue/Port.antt =====
-- What src/ports/Queue.ts hands to a consumer.
use saral.Base.{ℕ}
use saral.Jobs.{Job}

pub record QueueMessage : Type 0 where
  pub id : ℕ
  pub job : Job
  pub receipt_handle : ℕ
  pub received_count : ℕ
