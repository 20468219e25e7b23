-- ===== src/Sqs/Driver.antt =====
-- The class SqsQueue of src/adapters/aws/SqsQueue.ts over a client of the AWS SDK, which is an
-- argument: each command is a function on a state of its own. Ids and receipt handles are opaque
-- there, and numbers here; 0 is the empty text. The queue's URL, the region and the client are
-- fixed when the driver is constructed.
use saral.Base.{
  ℕ, zero, suc, ◌+◌, min, Bool, Option, none, some, List, [], ◌∷◌, ◌++◌, map, String, ltb, ◌==◌,
  if◌then◌else◌, take, drop, length,
}
use saral.Json.{Json}
use saral.Jobs.{Job}
use saral.Meta.Schema.{◌>>=◌}
use saral.Queue.Port.{QueueMessage}
use saral.Worker.Process.{SettlingPort}
use saral.Sqs.Codec.{job_schema, job_json}

pub record Entry : Type 0 where
  pub id : ℕ
  pub message_body : String
  pub delay_seconds : Option ℕ

-- `Successful` with its message ids, and the length of `Failed`.
pub record BatchResult : Type 0 where
  pub successful : List (Option ℕ)
  pub failed : ℕ

pub record RawMessage : Type 0 where
  pub message_id : Option ℕ
  pub body : Option String
  pub receipt_handle : Option ℕ
  pub approximate_receive_count : Option ℕ

-- `client.send` of each command. `none`, or the flag `true`, is a rejected promise.
pub record SqsClient (W : Type 0) : Type 0 where
  pub send_message : String → Option ℕ → W → W × Option (Option ℕ)
  pub send_message_batch : List Entry → W → W × Option BatchResult
  pub receive_message : (max_number wait_seconds : ℕ) → W → W × Option (List RawMessage)
  pub delete_message : ℕ → W → W × Bool
  pub change_message_visibility : ℕ → (timeout : ℕ) → W → W × Bool

-- JSON.parse and JSON.stringify, and the reading and the text of a uuid.
pub record Texts : Type 0 where
  pub parse : String → Option Json
  pub stringify : Json → String
  pub uuid_of : String → Option ℕ
  pub uuid_text : ℕ → String

abbrev pub sqs_batch_limit : ℕ
sqs_batch_limit = 10

-- `x ?? ''` of an id.
abbrev pub or_blank : Option ℕ → ℕ
or_blank none = 0
or_blank (some n) = n

-- `x ?? y` of a number.
abbrev pub or_number : Option ℕ → ℕ → ℕ
or_number none d = d
or_number (some n) d = n

-- `...(options?.delaySeconds ? { DelaySeconds } : {})`.
abbrev pub delay_field : Option ℕ → Option ℕ
delay_field none = none
delay_field (some n) = if n == 0 then none else some n

-- What `enqueueBatch` ends with; `stuck` would be a loop that ran out of fuel.
pub data Sent : Type 0 where
  fulfilled : List ℕ → Sent
  rejected stuck : Sent

module _ (t : Texts) where
  -- `MessageBody`.
  abbrev pub body_of : Job → String
  body_of job = t.stringify (job_json t.uuid_text job)

  -- `parseBody`.
  unfoldable pub parse_body : String → Option Job
  parse_body body = t.parse body >>= job_schema t.uuid_of

  -- The entries of a chunk whose first job has the number `offset`.
  unfoldable pub entries : (delay : Option ℕ) → (offset : ℕ) → List Job → List Entry
  entries delay offset [] = []
  entries delay offset (job ∷ jobs) =
      record { id = offset; message_body = body_of job; delay_seconds = delay_field delay }
      ∷ entries delay (offset + 1) jobs

  -- The body of the `for` loop of `receive`.
  unfoldable pub take_in : RawMessage → List QueueMessage → List QueueMessage
  unfolding parse_body
  take_in raw messages = elim raw.body [
    | none ↦ messages
    | some String.[] ↦ messages
    | some (String.◌∷◌ c cs) ↦ elim (or_blank raw.receipt_handle) [
      | zero ↦ messages
      | suc handle ↦ elim (parse_body (String.◌∷◌ c cs)) [
        | none ↦ messages
        | some job ↦
            messages
            ++ record {
              id = or_blank raw.message_id;
              job = job;
              receipt_handle = suc handle;
              received_count = or_number raw.approximate_receive_count 1;
            }
              ∷ []
      ]
    ]
  ]

  unfoldable pub take_in_all : List RawMessage → List QueueMessage → List QueueMessage
  take_in_all [] messages = messages
  take_in_all (raw ∷ raws) messages = take_in_all raws (take_in raw messages)

  module _ {W : Type 0} (client : SqsClient W) where
    unfoldable pub enqueue : (delay : Option ℕ) → Job → W → W × Option ℕ
    enqueue delay job w =
        let (w', result) = client.send_message (body_of job) (delay_field delay) w in
        (w', result >>= λ id. some (or_blank id))

    -- The rest of a round, once the client has answered, with the rounds that follow it.
    unfoldable pub after_chunk :
        (W → List ℕ → W × Sent) → List ℕ → W × Option BatchResult → W × Sent
    after_chunk next ids (w, none) = (w, rejected)
    after_chunk next ids (w, some r) =
        if ltb 0 r.failed then (w, rejected) else next w (ids ++ map or_blank r.successful)

    -- The `for` loop of `enqueueBatch`.
    unfoldable pub send_chunks :
        ℕ → (delay : Option ℕ) → List Job → (offset : ℕ) → W → List ℕ → W × Sent
    unfolding entries after_chunk
    send_chunks zero delay jobs offset w ids = (w, stuck)
    send_chunks (suc fuel) delay jobs offset w ids =
        let chunk = take sqs_batch_limit (drop offset jobs) in
        let next = send_chunks fuel delay jobs (offset + sqs_batch_limit) in
        if ltb offset (length jobs)
        then after_chunk next ids (client.send_message_batch (entries delay offset chunk) w)
        else (w, fulfilled ids)

    unfoldable pub enqueue_batch : (delay : Option ℕ) → List Job → W → W × Sent
    unfolding send_chunks
    enqueue_batch delay jobs w = send_chunks (suc (length jobs)) delay jobs 0 w []

    -- `none` is a rejected promise. The first arguments are `maxMessages`, `waitTimeSeconds` and the
    -- driver's `defaultWaitTimeSeconds`.
    unfoldable pub receive :
        (max_messages wait_time : Option ℕ)
        → (default_wait : ℕ) → W
        → W × Option (List QueueMessage)
    unfolding take_in_all
    receive max_messages wait_time default_wait w =
        let (w', result) =
          client.receive_message (min (or_number max_messages 1) 10)
            (or_number wait_time default_wait) w in
        (w', result >>= λ raws. some (take_in_all raws []))

    unfoldable pub ack : QueueMessage → W → W × Bool
    ack message w = client.delete_message message.receipt_handle w

    unfoldable pub nack : QueueMessage → W → W × Bool
    nack message w = client.change_message_visibility message.receipt_handle 0 w

    unfoldable pub extend_visibility : QueueMessage → ℕ → W → W × Bool
    extend_visibility message seconds w =
        client.change_message_visibility message.receipt_handle (min seconds 43_200) w

    -- The driver as the queue of the job runner.
    abbrev pub settling : SettlingPort W
    unfolding ack nack
    settling = record { ack = ack; nack = nack }
