-- ===== src/Sqs/Wire.antt =====
-- What SqsQueue.receive (src/adapters/aws/SqsQueue.ts) hands out of what SqsQueue.enqueue wrote.
use saral.Base.{
  ℕ, suc, ◌≤◌, ◌≡◌, refl, ap, sym, ◌∙◌, min, Option, none, some, List, [], ◌∷◌, ◌++◌, map,
  append-nil, append_assoc, String, arith,
}
use mathlib.Core.List.{map-append}
use Prim.Native.Char.{Char}
use saral.Jobs.{Job}
use saral.Meta.Schema.{◌>>=◌}
use saral.Queue.Port.{QueueMessage}
use saral.Sqs.Codec.{job_json, job_schema-job_json}
use saral.Sqs.Driver.{
  RawMessage, SqsClient, Texts, or_number, or_blank, body_of, parse_body, take_in, take_in_all,
  receive,
}

-- JSON.parse reads the text that JSON.stringify wrote of a job, which is not empty, and the text of
-- a uuid is read as that uuid.
pub record IsReadable (t : Texts) (job : Job) : Type 0 where
  pub written : (c : Char) × (cs : String) × (body_of t job ≡ String.◌∷◌ c cs)
  pub parsed : t.parse (body_of t job) ≡ some (job_json t.uuid_text job)

-- What a driver told of a message, by its job and its handle.
abbrev pub told : QueueMessage → Job × ℕ
told m = (m.job, m.receipt_handle)

-- The messages of an answer of SQS, with the jobs that were sent in them and their handles. A body
-- that is no JSON was written by someone else.
pub data Carries (t : Texts) : List RawMessage → List (Job × ℕ) → Type 0 where
  nothing : Carries t [] []
  sent :
      {raw : RawMessage} {raws : List RawMessage} {job : Job} {jobs : List (Job × ℕ)} (handle : ℕ)
      → IsReadable t job
      → raw.body ≡ some (body_of t job)
      → raw.receipt_handle ≡ some (suc handle)
      → Carries t raws jobs
      → Carries t (raw ∷ raws) ((job, suc handle) ∷ jobs)
  foreign :
      {raw : RawMessage} {raws : List RawMessage} {jobs : List (Job × ℕ)} (body : String)
      → raw.body ≡ some body
      → t.parse body ≡ none
      → Carries t raws jobs
      → Carries t (raw ∷ raws) jobs

module _ (t : Texts) (read : (id : ℕ) → t.uuid_of (t.uuid_text id) ≡ some id) where
  parse_body-body_of : (job : Job) → IsReadable t job → parse_body t (body_of t job) ≡ some job
  unfolding parse_body
  parse_body-body_of job readable =
      rw readable.parsed (job_schema-job_json t.uuid_of t.uuid_text read job)

  take_in-sent :
      (raw : RawMessage) (job : Job) (handle : ℕ) (messages : List QueueMessage)
      → IsReadable t job
      → raw.body ≡ some (body_of t job)
      → raw.receipt_handle ≡ some (suc handle)
      → take_in t raw messages
        ≡ messages
          ++ record {
            id = or_blank raw.message_id;
            job = job;
            receipt_handle = suc handle;
            received_count = or_number raw.approximate_receive_count 1;
          }
            ∷ []
  unfolding take_in
  take_in-sent raw job handle messages readable body held =
      let (c, cs, text) = readable.written in
      let read_back : parse_body t (String.◌∷◌ c cs) ≡ some job =
        rw (← text) (parse_body-body_of job readable) in
      let spelt : raw.body ≡ some (String.◌∷◌ c cs) = body ∙ ap some text in ground arith

  take_in-foreign :
      (raw : RawMessage) (body : String) (messages : List QueueMessage)
      → raw.body ≡ some body
      → t.parse body ≡ none
      → take_in t raw messages ≡ messages
  unfolding take_in parse_body
  take_in-foreign raw String.[] messages here junk = rw here refl
  take_in-foreign raw (String.◌∷◌ c cs) messages here junk = ground arith

  take_in_all-Carries :
      {raws : List RawMessage} {jobs : List (Job × ℕ)} (messages : List QueueMessage)
      → Carries t raws jobs
      → map told (take_in_all t raws messages) ≡ map told messages ++ jobs
  unfolding take_in_all
  take_in_all-Carries messages nothing = sym (append-nil (map told messages))
  take_in_all-Carries messages (sent {raw} {raws} {job} {jobs} handle readable body held rest) =
      rw (take_in-sent raw job handle messages readable body held) (
        take_in_all-Carries _ rest
        ∙ ap (λ l. l ++ jobs) (map-append told messages _)
        ∙ append_assoc (map told messages) ((job, suc handle) ∷ []) jobs)
  take_in_all-Carries messages (foreign {raw} {raws} {jobs} body here junk rest) =
      rw (take_in-foreign raw body messages here junk) (take_in_all-Carries messages rest)

  -- Let the text of each uuid be read as that uuid, and let an answer of SQS hold bodies that
  -- `enqueue` wrote of readable jobs, each with a receipt handle, mixed with bodies that are no
  -- JSON. Then `receive` is fulfilled, and hands out exactly the jobs that were sent, in order and
  -- each with its handle; it asks SQS for at most ten messages.
  pub receive-Carries :
      {W : Type 0} (client : SqsClient W) (max_messages wait_time : Option ℕ) (default_wait : ℕ)
      (w : W) {raws : List RawMessage} {jobs : List (Job × ℕ)}
      → let asked = min (or_number max_messages 1) 10 in
        (client.receive_message asked (or_number wait_time default_wait) w).1 ≡ some raws
        → Carries t raws jobs
        → (ms : List QueueMessage) × ((receive t client max_messages wait_time default_wait w).1
            ≡ some ms)
          × (map told ms ≡ jobs)
          × (asked ≤ 10)
  unfolding receive
  receive-Carries client max_messages wait_time default_wait w {raws} answered carried = (
    take_in_all t raws [],
    ap (λ r. r >>= λ raws. some (take_in_all t raws [])) answered,
    take_in_all-Carries [] carried,
    omega arith,
  )
