-- ===== src/Queue/Invariant.antt =====
-- The well-formedness of an InMemoryQueue (src/adapters/local/InMemoryQueue.ts), and that every
-- method keeps it.
use saral.Base.{
  ℕ, ◌+◌, ◌≤◌, ◌<◌, ◌≡◌, List, [], ◌∷◌, arith, ltb, length, All, All-append, All-map, Bool-cases,
  inl, inr,
}
use saral.Queue.Memory.{Envelope, MemoryQueue, Pass, new_queue, deliver, visit, scan}
use saral.Queue.Map.{Entry, All-map_set}

-- A waiting message has been received at most as often as the ceiling allows.
abbrev pub Waiting : (max_count drawn : ℕ) → Envelope → Type 0
Waiting max_count drawn e = (e.received_count ≤ max_count) × (e.id < drawn)

-- A message in flight is filed under its own handle, and has been received at least once.
abbrev pub Flying : (max_count drawn : ℕ) → ℕ → Envelope → Type 0
Flying max_count drawn k e =
    (e.receipt_handle ≡ k)
    × (1 ≤ e.received_count)
    × (e.received_count ≤ max_count)
    × (e.id < drawn)
    × (k < drawn)

-- A dead letter was received once more than the ceiling allows.
abbrev pub Dead : (max_count drawn : ℕ) → Envelope → Type 0
Dead max_count drawn e = (e.received_count ≡ max_count + 1) × (e.id < drawn)

pub record IsValid (q : MemoryQueue) : Type 0 where
  pub waiting : All (Waiting q.max_receive_count q.drawn) q.messages
  pub flying : All (Entry (Flying q.max_receive_count q.drawn)) q.in_flight
  pub dead : All (Dead q.max_receive_count q.drawn) q.dead_letters

-- A draw of a uuid leaves what holds of the drawn ones.
pub Waiting-mono :
    (max_count d d' : ℕ) (es : List Envelope)
    → d ≤ d'
    → All (Waiting max_count d) es
    → All (Waiting max_count d') es
Waiting-mono max_count d d' es le h = All-map (λ e p. omega arith) es h

pub Flying-mono :
    (max_count d d' : ℕ) (m : List (ℕ × Envelope))
    → d ≤ d'
    → All (Entry (Flying max_count d)) m
    → All (Entry (Flying max_count d')) m
Flying-mono max_count d d' m le h = All-map (λ (e : ℕ × Envelope) p. omega arith) m h

pub Dead-mono :
    (max_count d d' : ℕ) (es : List Envelope)
    → d ≤ d'
    → All (Dead max_count d) es
    → All (Dead max_count d') es
Dead-mono max_count d d' es le h = All-map (λ e p. omega arith) es h

pub record PassIsValid (max_count : ℕ) (p : Pass) : Type 0 where
  pub waiting : All (Waiting max_count p.drawn) p.kept
  pub flying : All (Entry (Flying max_count p.drawn)) p.in_flight
  pub dead : All (Dead max_count p.drawn) p.dead_letters

pub visit-drawn :
    (now timeout max_count : ℕ) (e : Envelope) (p : Pass)
    → p.drawn ≤ (visit now timeout max_count e p).drawn
unfolding visit deliver
visit-drawn now timeout max_count e p = ground arith

module _ (now timeout max_count : ℕ) where
  deliver-IsValid :
      (e : Envelope) (p : Pass)
      → Waiting max_count p.drawn e
      → PassIsValid max_count p
      → PassIsValid max_count (deliver now timeout max_count e p)
  unfolding deliver
  deliver-IsValid e p w v = elim (Bool-cases (ltb max_count (e.received_count + 1))) [
    | inl over ↦ rw over (record {
      waiting = v.waiting;
      flying = v.flying;
      dead = All-append (Dead max_count p.drawn) p.dead_letters _ v.dead (ground arith);
    })
    | inr within ↦ rw within (record {
      waiting = Waiting-mono max_count p.drawn (p.drawn + 1) p.kept (omega arith) v.waiting;
      flying =
          All-map_set (Flying max_count (p.drawn + 1)) p.drawn
            (record e {
              received_count = e.received_count + 1;
              receipt_handle = p.drawn;
              visible_at = now + timeout;
            })
            p.in_flight
            (Flying-mono max_count p.drawn (p.drawn + 1) p.in_flight (omega arith) v.flying)
            (ground arith);
      dead = Dead-mono max_count p.drawn (p.drawn + 1) p.dead_letters (omega arith) v.dead;
    })
  ]

  pub visit-IsValid :
      (e : Envelope) (p : Pass)
      → Waiting max_count p.drawn e
      → PassIsValid max_count p
      → PassIsValid max_count (visit now timeout max_count e p)
  unfolding visit
  visit-IsValid e p w v = elim (Bool-cases (ltb now e.visible_at)) [
    | inl hidden ↦ rw hidden (record {
      waiting = All-append (Waiting max_count p.drawn) p.kept (e ∷ []) v.waiting (w, tt);
      flying = v.flying;
      dead = v.dead;
    })
    | inr due ↦ rw due (deliver-IsValid e p w v)
  ]

  pub scan-IsValid :
      (limit : ℕ) (es : List Envelope) (p : Pass)
      → All (Waiting max_count p.drawn) es
      → PassIsValid max_count p
      → PassIsValid max_count (scan now timeout max_count limit es p)
  unfolding scan
  scan-IsValid limit [] p h v = v
  scan-IsValid limit (e ∷ es) p (w, h) v = elim (Bool-cases (ltb (length p.ready) limit)) [
    | inl room ↦ rw room (
        scan-IsValid limit es (visit now timeout max_count e p)
          (Waiting-mono max_count p.drawn _ es (visit-drawn now timeout max_count e p) h)
          (visit-IsValid e p w v))
    | inr full ↦ rw full (record {
      waiting = All-append (Waiting max_count p.drawn) p.kept (e ∷ es) v.waiting (w, h);
      flying = v.flying;
      dead = v.dead;
    })
  ]

  pub scan-drawn :
      (limit : ℕ) (es : List Envelope) (p : Pass)
      → p.drawn ≤ (scan now timeout max_count limit es p).drawn
  unfolding scan
  scan-drawn limit [] p = omega arith
  scan-drawn limit (e ∷ es) p = ground (
    arith,
    visit-drawn now timeout max_count e p,
    scan-drawn limit es (visit now timeout max_count e p),
  )

pub new_queue-IsValid : (timeout_ms max_count : ℕ) → IsValid (new_queue timeout_ms max_count)
unfolding new_queue
new_queue-IsValid timeout_ms max_count = record { waiting = tt; flying = tt; dead = tt }
