-- ===== src/Queue/Memory.antt =====
-- The class InMemoryQueue of src/adapters/local/InMemoryQueue.ts: its state, and each method as a
-- function from the state to the state. `Date.now()` is an argument; `randomUUID()` draws the
-- numbers 0, 1, 2, … from the state, so that no two draws agree. The Map `inFlight` is an
-- association list in the order of insertion.
use saral.Base.{
  ℕ, ◌+◌, ◌*◌, Bool, true, false, Option, none, some, List, [], ◌∷◌, ◌++◌, ltb, ◌==◌, if◌then◌else◌,
  length,
}
use saral.Jobs.{Job}
use saral.Queue.Port.{QueueMessage}

pub record Envelope : Type 0 where
  pub id : ℕ
  pub job : Job
  pub receipt_handle : ℕ
  pub received_count : ℕ
  pub visible_at : ℕ

pub record MemoryQueue : Type 0 where
  pub messages : List Envelope
  pub in_flight : List (ℕ × Envelope)
  pub dead_letters : List Envelope
  pub closed : Bool
  pub visibility_timeout_ms : ℕ
  pub max_receive_count : ℕ
  pub drawn : ℕ

-- The Map: `get`, `delete` and `set`. A `set` at a key that is there replaces the value in place.
unfoldable pub map_get : ℕ → List (ℕ × Envelope) → Option Envelope
map_get k [] = none
map_get k ((j, e) ∷ m) = if j == k then some e else map_get k m

unfoldable pub map_delete : ℕ → List (ℕ × Envelope) → List (ℕ × Envelope)
map_delete k [] = []
map_delete k ((j, e) ∷ m) = if j == k then m else (j, e) ∷ map_delete k m

unfoldable pub map_set : ℕ → Envelope → List (ℕ × Envelope) → List (ℕ × Envelope)
map_set k v [] = (k, v) ∷ []
map_set k v ((j, e) ∷ m) = if j == k then (j, v) ∷ m else (j, e) ∷ map_set k v m

-- The constructor, with its default arguments written out where it is called.
unfoldable pub new_queue : ℕ → ℕ → MemoryQueue
new_queue timeout_ms max_count = record {
  messages = [];
  in_flight = [];
  dead_letters = [];
  closed = false;
  visibility_timeout_ms = timeout_ms;
  max_receive_count = max_count;
  drawn = 0;
}

-- `none` is the exception 'queue is closed'.
unfoldable pub enqueue : ℕ → Job → ℕ → MemoryQueue → Option (MemoryQueue × ℕ)
enqueue now job delay_seconds q =
    if q.closed
    then none
    else some (
      record q {
        messages =
            q.messages
            ++ record {
              id = q.drawn;
              job = job;
              receipt_handle = q.drawn + 1;
              received_count = 0;
              visible_at = now + delay_seconds * 1000;
            }
              ∷ [];
        drawn = q.drawn + 2;
      },
      q.drawn,
    )

-- What `receive` has gathered while it walks `this.messages`: the ones that it leaves there, and
-- the parts of the queue and of the answer that it adds to.
pub record Pass : Type 0 where
  pub kept : List Envelope
  pub in_flight : List (ℕ × Envelope)
  pub dead_letters : List Envelope
  pub ready : List QueueMessage
  pub drawn : ℕ

abbrev pub to_message : Envelope → QueueMessage
to_message e = record {
  id = e.id;
  job = e.job;
  receipt_handle = e.receipt_handle;
  received_count = e.received_count;
}

-- The body of the `for` loop for a visible message, which has been spliced out.
unfoldable pub deliver : (now timeout_ms max_count : ℕ) → Envelope → Pass → Pass
deliver now timeout_ms max_count envelope p =
    let e = record envelope { received_count = envelope.received_count + 1 } in
    let fresh = record e { receipt_handle = p.drawn; visible_at = now + timeout_ms } in
    if ltb max_count e.received_count
    then record p { dead_letters = p.dead_letters ++ e ∷ [] }
    else record p {
      in_flight = map_set p.drawn fresh p.in_flight;
      ready = p.ready ++ to_message fresh ∷ [];
      drawn = p.drawn + 1;
    }

unfoldable pub visit : (now timeout_ms max_count : ℕ) → Envelope → Pass → Pass
visit now timeout_ms max_count e p =
    if ltb now e.visible_at
    then record p { kept = p.kept ++ e ∷ [] }
    else deliver now timeout_ms max_count e p

-- The `for` loop: it stops when `limit` messages are ready, and leaves the rest in place.
unfoldable pub scan : (now timeout_ms max_count limit : ℕ) → List Envelope → Pass → Pass
scan now timeout_ms max_count limit [] p = p
scan now timeout_ms max_count limit (e ∷ es) p =
    if ltb (length p.ready) limit
    then scan now timeout_ms max_count limit es (visit now timeout_ms max_count e p)
    else record p { kept = p.kept ++ e ∷ es }

abbrev pub start_pass : MemoryQueue → Pass
start_pass q = record {
  kept = [];
  in_flight = q.in_flight;
  dead_letters = q.dead_letters;
  ready = [];
  drawn = q.drawn;
}

abbrev pub end_pass : MemoryQueue → Pass → MemoryQueue
end_pass q p = record q {
  messages = p.kept;
  in_flight = p.in_flight;
  dead_letters = p.dead_letters;
  drawn = p.drawn;
}

-- One round of the `for (;;)` of `receive`, up to the test that ends it.
unfoldable pub receive_round : ℕ → ℕ → MemoryQueue → MemoryQueue × List QueueMessage
receive_round now limit q =
    let p = scan now q.visibility_timeout_ms q.max_receive_count limit q.messages (start_pass q) in
    (end_pass q p, p.ready)

unfoldable pub ack : QueueMessage → MemoryQueue → MemoryQueue
ack m q = record q { in_flight = map_delete m.receipt_handle q.in_flight }

unfoldable pub nack : ℕ → QueueMessage → MemoryQueue → MemoryQueue
nack now m q = elim (map_get m.receipt_handle q.in_flight) [
  | none ↦ q
  | some envelope ↦ record q {
    in_flight = map_delete m.receipt_handle q.in_flight;
    messages = q.messages ++ record envelope { visible_at = now } ∷ [];
  }
]

-- The envelope that the Map holds is changed in place.
unfoldable pub extend_visibility : ℕ → QueueMessage → ℕ → MemoryQueue → MemoryQueue
extend_visibility now m seconds q = elim (map_get m.receipt_handle q.in_flight) [
  | none ↦ q
  | some envelope ↦ record q {
    in_flight =
        map_set m.receipt_handle (record envelope { visible_at = now + seconds * 1000 })
          q.in_flight;
  }
]

unfoldable pub close : MemoryQueue → MemoryQueue
close q = record q { closed = true }

abbrev pub depth : MemoryQueue → ℕ
depth q = length q.messages

abbrev pub in_flight_count : MemoryQueue → ℕ
in_flight_count q = length q.in_flight

abbrev pub dead_letter_count : MemoryQueue → ℕ
dead_letter_count q = length q.dead_letters
