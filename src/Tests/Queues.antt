-- ===== src/Tests/Queues.antt =====
-- The in-memory queue and the worker at concrete inputs (src/adapters/local/InMemoryQueue.ts,
-- src/worker/JobRunner.ts).
use saral.Base.{
  ℕ, ◌+◌, ◌≤◌, ◌≡◌, refl, ◌≢◌, ◌↔◌, ◌⊎◌, true, false, none, some, List, [], ◌∷◌, ◌++◌, arith,
  length,
}
use saral.Jobs.{Job}
use saral.Queue.Port.{QueueMessage}
use saral.Queue.Memory
use saral.Queue.Memory.{
  Envelope, MemoryQueue, map_get, map_set, new_queue, deliver, visit, scan, receive_round,
}
use saral.Queue.Trace.{Call, Round, perform, run, receive}
use saral.Queue.Invariant.{IsValid, new_queue-IsValid}
use saral.Queue.Methods.{run-IsValid}
use saral.Queue.Budget.{deliveries, only}
use saral.Queue.Ceiling.{deliveries-le_ceiling}
use saral.Queue.Conservation.{stored, is_message, acknowledged, created, perform-stored}
use saral.Queue.Retention.{StillInFlight, run-StillInFlight}
use saral.Worker.Process.{SettlingPort, failed, Handlers, run_handler, process}
use saral.Worker.Settling.{memory_port, DropsIn, process_rejects_iff, process-stored}
use saral.Worker.Polling.{Runner, batch_limit, begin, Reach, here, next, ask, answer}
use saral.Worker.Capacity.{asked_for, Reach-capacity}

abbrev download : Job
download = Job.download_media_asset 7

abbrev first : QueueMessage
first = record { id = 0; job = download; receipt_handle = 2; received_count = 1 }

abbrev calls : List Call
calls = Call.enqueue 10 download 0 ∷ Call.round 20 5 ∷ Call.nack 30 first ∷ Call.round 40 5 ∷ []

-- The second delivery is refused: the ceiling is one.
two_rounds :
    ((run calls (new_queue 1000 1)).1 ≡ first ∷ [])
    × (length (run calls (new_queue 1000 1)).0.dead_letters ≡ 1)
unfolding run perform Memory.enqueue Memory.nack receive_round scan visit deliver new_queue map_set
    map_get Memory.map_delete
two_rounds = (refl, refl)

deliveries-le_ceiling_example : deliveries (only 0) (run calls (new_queue 1000 1)).1 ≤ 1
deliveries-le_ceiling_example = deliveries-le_ceiling 1000 1 calls 0

run-IsValid_example : IsValid (run calls (new_queue 1000 1)).0
run-IsValid_example = run-IsValid calls (new_queue 1000 1) (new_queue-IsValid 1000 1)

perform-stored_example :
    stored 0 (perform (Call.enqueue 10 download 0) (new_queue 1000 3)).0
      + acknowledged 0 (Call.enqueue 10 download 0) (new_queue 1000 3)
    ≡ stored 0 (new_queue 1000 3) + created 0 (Call.enqueue 10 download 0) (new_queue 1000 3)
perform-stored_example =
    perform-stored (Call.enqueue 10 download 0) 0 (new_queue 1000 3) (new_queue-IsValid 1000 3)

abbrev waiting : MemoryQueue
waiting = record {
  messages =
      record { id = 0; job = download; receipt_handle = 1; received_count = 0; visible_at = 10 }
      ∷ [];
  in_flight = [];
  dead_letters = [];
  closed = false;
  visibility_timeout_ms = 1000;
  max_receive_count = 3;
  drawn = 2;
}

abbrev taken : Envelope
taken = record { id = 0; job = download; receipt_handle = 2; received_count = 1; visible_at = 1020 }

abbrev flying : MemoryQueue
flying = record {
  messages = [];
  in_flight = (2, taken) ∷ [];
  dead_letters = [];
  closed = false;
  visibility_timeout_ms = 1000;
  max_receive_count = 3;
  drawn = 3;
}

abbrev much_later : List Call
much_later = Call.round 900000 5 ∷ Call.round 9900000 5 ∷ []

is_flying : map_get 2 flying.in_flight ≡ some taken
unfolding map_get
is_flying = refl

run-StillInFlight_example : StillInFlight 2 taken (run much_later flying).0
run-StillInFlight_example =
    run-StillInFlight 2 taken much_later flying (refl, (refl, tt)) (1020, is_flying, omega arith)

abbrev two_polls : List Round
two_polls =
    record { now = 0; tested_at = 1; others = Call.enqueue 1 download 0 ∷ [] }
    ∷ record { now = 101; tested_at = 102; others = [] }
    ∷ []

abbrev one_poll : List Round
one_poll = record { now = 0; tested_at = 100; others = [] } ∷ []

nothing_there : receive 1 100 one_poll flying ≡ some (flying, [])
unfolding receive receive_round scan
nothing_there = refl

abbrev fails : Handlers MemoryQueue
fails t = some (λ job context q. (q, failed))

process-stored_example :
    let after = (process (memory_port 50) first fails false flying).0 in
    ((failed ≡ failed)
      × (after.messages ≡ flying.messages ++ record taken { visible_at = 50 } ∷ [])
      × (stored 0 after ≡ stored 0 flying))
    ⊎ ((failed ≢ failed) × (stored 0 after + is_message 0 taken ≡ stored 0 flying))
process-stored_example =
    process-stored 50 0 first fails false flying flying failed taken refl is_flying

-- A queue whose calls all throw.
abbrev broken : SettlingPort ℕ
broken = record { ack = λ m s. (s, true); nack = λ m s. (s, true) }

abbrev no_handlers : Handlers ℕ
no_handlers t = none

process_rejects_iff_example :
    ((process broken first no_handlers false 0).1 ≡ true)
    ↔ ((t : ℕ) × DropsIn 0 (run_handler first no_handlers false 0) t × (true ≡ true))
process_rejects_iff_example = process_rejects_iff broken first no_handlers false 0

abbrev asked_once : Runner
asked_once = record (begin 2) { asked = some (batch_limit (begin 2)) }

abbrev one_active : Runner
one_active = record asked_once { active = first ∷ []; asked = none }

one_task : Reach (begin 2) one_active
one_task =
    next (next here (ask (begin 2) refl refl (omega arith)))
      (answer asked_once 2 (first ∷ []) refl (omega arith))

Reach-capacity_example :
    (length one_active.active + asked_for one_active.asked ≤ 2)
    × (asked_for one_active.asked ≤ 10)
    × ((one_active.aborted ≡ false) ↔ (one_active.running ≡ true))
Reach-capacity_example = Reach-capacity 2 one_active one_task
