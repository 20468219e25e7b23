-- ===== src/Worker/Polling.antt =====
-- The polling loop JobRunner.start and JobRunner.stop of src/worker/JobRunner.ts, as steps that its
-- tasks and the process that stops it interleave.
use saral.Base.{
  ℕ, ◌-◌, ◌≤◌, ◌<◌, ◌≡◌, min, Bool, true, false, Option, none, some, List, [], ◌∷◌, ◌++◌, length,
}
use saral.Queue.Port.{QueueMessage}

-- `asked` is the `maxMessages` of a `receive` that has not answered yet. `aborted` is the signal
-- that the handlers are given.
pub record Runner : Type 0 where
  pub active : List QueueMessage
  pub asked : Option ℕ
  pub running : Bool
  pub aborted : Bool
  pub max_concurrent : ℕ

-- `Math.min(this.maxConcurrent - this.active.size, 10)`, computed below the capacity.
abbrev pub batch_limit : Runner → ℕ
batch_limit r = min (r.max_concurrent - length r.active) 10

abbrev pub begin : ℕ → Runner
begin max_concurrent = record {
  active = [];
  asked = none;
  running = true;
  aborted = false;
  max_concurrent = max_concurrent;
}

pub data Step : Runner → Runner → Type 0 where
  -- The loop is running, has a free slot and waits for no answer: it asks.
  ask :
      (r : Runner)
      → r.running ≡ true
      → r.asked ≡ none
      → length r.active < r.max_concurrent
      → Step r (record r { asked = some (batch_limit r) })
  -- The queue answers with at most as many messages as were asked for; a task starts for each.
  answer :
      (r : Runner) (limit : ℕ) (messages : List QueueMessage)
      → r.asked ≡ some limit
      → length messages ≤ limit
      → Step r (record r { active = r.active ++ messages; asked = none })
  -- `receive` throws, and the loop goes on after its pause.
  receive_fails :
      (r : Runner) (limit : ℕ) → r.asked ≡ some limit → Step r (record r { asked = none })
  -- A task ends, however it does, and leaves the set.
  finish :
      (r : Runner) (before : List QueueMessage) (m : QueueMessage) (after : List QueueMessage)
      → r.active ≡ before ++ m ∷ after
      → Step r (record r { active = before ++ after })
  stop : (r : Runner) → r.running ≡ true → Step r (record r { running = false; aborted = true })

pub data Reach (s : Runner) : Runner → Type 0 where
  here : Reach s s
  next : {t u : Runner} → Reach s t → Step t u → Reach s u
