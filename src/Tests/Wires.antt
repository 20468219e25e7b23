-- ===== src/Tests/Wires.antt =====
-- The SQS driver and the drain at concrete inputs (src/adapters/aws/SqsQueue.ts,
-- commands/_drain.ts).
use saral.Base.{
  ℕ, zero, suc, ◌+◌, ◌≤◌, ◌≡◌, refl, ap, false, min, none, some, List, [], ◌∷◌, map, String, length,
  if◌then◌else◌,
}
use text.Mathlib.Text.{◌==◌ as str_eq}
use saral.Jobs.{Job}
use saral.Queue.Port.{QueueMessage}
use saral.Http.Request.{text_length}
use saral.Sqs.Codec.{job_json}
use saral.Sqs.Driver.{RawMessage, SqsClient, Texts, entries, enqueue_batch, receive}
use saral.Sqs.Batches.{recorded, CutsUp, enqueue_batch-CutsUp}
use saral.Sqs.Wire.{IsReadable, Carries, nothing, sent, foreign, told, receive-Carries}

abbrev unary : ℕ → String
unary zero = ""
unary (suc n) = String.◌∷◌ "a" (unary n)

length-unary : (n : ℕ) → text_length (unary n) ≡ n
length-unary zero = refl
length-unary (suc n) = ap suc (length-unary n)

abbrev download : Job
download = Job.download_media_asset 2

-- A runtime that knows one text.
abbrev one_text : Texts
one_text = record {
  parse = λ s. if str_eq s "{}" then some (job_json unary download) else none;
  stringify = λ v. "{}";
  uuid_of = λ s. some (text_length s);
  uuid_text = unary;
}

abbrev answered : List RawMessage
answered =
    record {
      message_id = some 1;
      body = some "junk";
      receipt_handle = some 5;
      approximate_receive_count = none;
    }
    ∷ record {
      message_id = some 2;
      body = some "{}";
      receipt_handle = some 6;
      approximate_receive_count = some 2;
    }
    ∷ []

-- A service that takes everything; its state counts the batches.
abbrev willing : SqsClient ℕ
willing = record {
  send_message = λ body delay w. (w, some (some 1));
  send_message_batch = λ batch w. (w + 1, some (record { successful = []; failed = 0 }));
  receive_message = λ max_number wait w. (w, some answered);
  delete_message = λ handle w. (w, false);
  change_message_visibility = λ handle timeout w. (w, false);
}

abbrev eleven : List Job
eleven =
    download ∷ download ∷ download ∷ download ∷ download ∷ download ∷ download ∷ download ∷ download
    ∷ download ∷ download ∷ []

two_batches :
    map length (enqueue_batch one_text (recorded willing) none eleven (0, [])).0.1 ≡ 10 ∷ 1 ∷ []
unfolding enqueue_batch
two_batches = refl

enqueue_batch-CutsUp_example :
    let ((w', batches), end) = enqueue_batch one_text (recorded willing) none eleven (0, []) in
    CutsUp (entries one_text none 0 eleven) (batches, end)
enqueue_batch-CutsUp_example = enqueue_batch-CutsUp one_text willing none eleven 0

readable : IsReadable one_text download
readable = record { written = ("{", "}", refl); parsed = refl }

carried : Carries one_text answered ((download, 6) ∷ [])
carried = foreign "junk" refl refl (sent 5 readable refl refl nothing)

receive-Carries_example :
    (ms : List QueueMessage) × ((receive one_text willing none none 20 0).1 ≡ some ms)
    × (map told ms ≡ (download, 6) ∷ [])
    × (min 1 10 ≤ 10)
receive-Carries_example = receive-Carries one_text length_read willing none none 20 0 refl carried
  where
    length_read : (id : ℕ) → one_text.uuid_of (one_text.uuid_text id) ≡ some id
    length_read id = ap some (length-unary id)
