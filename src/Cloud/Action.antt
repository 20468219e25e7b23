-- ===== src/Cloud/Action.antt =====
-- Async functions of the scripts in commands, over a world `W`: they return or throw, and what
-- they have done by then stays done.
use saral.Base.{Option, none, some, String, Bool, true, false}
use saral.Asset.Storage.{Attempt, got, threw}
use saral.Meta.Client.Paginate.{truthy}

abbrev pub Action : Type 0 → Type 0 → Type 0
Action W A = W → W × Attempt A String

module _ {W A : Type 0} where
  abbrev pub return_it : A → Action W A
  return_it a w = (w, got a)

  abbrev pub throw_it : String → Action W A
  throw_it e w = (w, threw e)

  -- `try { … } catch { … }`.
  abbrev pub recover : (String → Action W A) → W × Attempt A String → W × Attempt A String
  recover handler (w, got a) = (w, got a)
  recover handler (w, threw e) = handler e w

  abbrev pub try_catch : Action W A → (String → Action W A) → Action W A
  try_catch a handler w = recover handler (a w)

module _ {W A B : Type 0} where
  -- `await`: an error ends the function.
  abbrev pub resume : (A → Action W B) → W × Attempt A String → W × Attempt B String
  resume k (w, threw e) = (w, threw e)
  resume k (w, got a) = k a w

  infixl 5 ◌>>=◌
  abbrev pub ◌>>=◌ : Action W A → (A → Action W B) → Action W B
  (a >>= k) w = resume k (a w)

-- `if (!value) throw …`.
abbrev pub checked : {W : Type 0} → Bool → (value error : String) → Action W String
checked true s e = return_it s
checked false s e = throw_it e

abbrev pub present : {W : Type 0} → (error : String) → Option String → Action W String
present e none = throw_it e
present e (some s) = checked (truthy (some s)) s e
