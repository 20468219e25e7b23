-- ===== src/Cloud/Account.antt =====
-- What commands/provisionAws.ts looks for in an AWS account, and what it asks to create there.
use saral.Base.{Bool, true, false, List, [], ◌∷◌, ◌++◌, String, ℕ}
use saral.Meta.Client.Paginate.{truthy}
use saral.Asset.Storage.{Attempt, got, threw}
use saral.Cloud.Sdk.{Command, Reply, Sdk}

pub data Resource : Type 0 where
  bucket queue role : String → Resource

-- The lookups that were sent, those of them that found nothing, whatever the error was, and the
-- creations that were asked for, in their orders.
pub record Trace : Type 0 where
  pub looked : List Resource
  pub missing : List Resource
  pub created : List Resource

abbrev pub no_trace : Trace
no_trace = record { looked = []; missing = []; created = [] }

abbrev pub looked_up : Resource → (found : Bool) → Trace → Trace
looked_up r true t = record t { looked = t.looked ++ (r ∷ []) }
looked_up r false t = record t { looked = t.looked ++ (r ∷ []); missing = t.missing ++ (r ∷ []) }

abbrev pub asked_for : Resource → Trace → Trace
asked_for r t = record t { created = t.created ++ (r ∷ []) }

abbrev pub succeeded : Attempt Reply String → Bool
succeeded (got r) = true
succeeded (threw e) = false

-- A lookup of a queue finds a URL.
abbrev pub has_url : Attempt Reply String → Bool
has_url (got r) = truthy r.value
has_url (threw e) = false

abbrev pub traced : Command → Attempt Reply String → Trace → Trace
traced (Command.head_bucket b) r t = looked_up (bucket b) (succeeded r) t
traced (Command.get_role n) r t = looked_up (role n) (succeeded r) t
traced (Command.get_queue_url n) r t = looked_up (queue n) (has_url r) t
traced (Command.create_bucket b l) r t = asked_for (bucket b) t
traced (Command.create_role n p) r t = asked_for (role n) t
traced (Command.create_queue n v p) r t = asked_for (queue n) t
traced c r t = t

-- A world that also keeps the trace.
abbrev pub Traced : Type 0 → Type 0
Traced W = W × Trace

abbrev pub tracing : {W : Type 0} → Sdk W → Sdk (Traced W)
tracing send c (w, t) = let (w', r) = send c w in ((w', traced c r t), r)

abbrev pub tracing_pause : {W : Type 0} → (ℕ → W → W) → ℕ → Traced W → Traced W
tracing_pause pause ms (w, t) = (pause ms w, t)
