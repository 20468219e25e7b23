-- ===== src/Cloud/Logic.antt =====
-- A logic for the async functions of commands: what holds before one, what holds when it
-- returns, and what holds when it throws.
use saral.Base.{◌≡◌, refl, Option, none, some, String, Bool-cases, inl, inr}
use saral.Meta.Client.Paginate.{truthy}
use saral.Asset.Storage.{Attempt, got, threw}
use saral.Cloud.Action.{Action, recover, try_catch, resume, ◌>>=◌, present}

module _ {W A : Type 0} where
  abbrev pub Ends : (A → W → Type 0) → (W → Type 0) → W × Attempt A String → Type 0
  Ends Q E (w, got a) = Q a w
  Ends Q E (w, threw e) = E w

  -- From `P`, the function returns with `Q` or throws with `E`.
  abbrev pub Leads : (W → Type 0) → Action W A → (A → W → Type 0) → (W → Type 0) → Type 0
  Leads P a Q E = (w : W) → P w → Ends Q E (a w)

  pub Leads-try_catch :
      (P F E : W → Type 0) (Q : A → W → Type 0) (a : Action W A) (h : String → Action W A)
      → Leads P a Q F
      → ((e : String) → Leads F (h e) Q E)
      → Leads P (try_catch a h) Q E
  Leads-try_catch P F E Q a h body handler w p = caught (a w) (body w p)
    where
      caught : (o : W × Attempt A String) → Ends Q F o → Ends Q E (recover h o)
      caught (w1, got x) q = q
      caught (w1, threw e) f = handler e w1 f

  pub Leads-weaken :
      (P E E' : W → Type 0) (Q Q' : A → W → Type 0) (a : Action W A)
      → ((x : A) (w : W) → Q x w → Q' x w)
      → ((w : W) → E w → E' w)
      → Leads P a Q E
      → Leads P a Q' E'
  Leads-weaken P E E' Q Q' a f g body w p = weaker (a w) (body w p)
    where
      weaker : (o : W × Attempt A String) → Ends Q E o → Ends Q' E' o
      weaker (w1, got x) q = f x w1 q
      weaker (w1, threw e) q = g w1 q

module _ {W A B : Type 0} where
  pub Leads-bind :
      (P E : W → Type 0) (Q : A → W → Type 0) (R : B → W → Type 0) (a : Action W A)
      (k : A → Action W B)
      → Leads P a Q E
      → ((x : A) → Leads (Q x) (k x) R E)
      → Leads P (a >>= k) R E
  Leads-bind P E Q R a k first rest w p = resumed (a w) (first w p)
    where
      resumed : (o : W × Attempt A String) → Ends Q E o → Ends R E (resume k o)
      resumed (w1, got x) q = rest x w1 q
      resumed (w1, threw e) q = q

-- The value that is present.
pub Leads-present :
    {W : Type 0} (P : W → Type 0) (e : String) (o : Option String)
    → Leads P (present e o) (λ s w. P w × (o ≡ some s)) P
Leads-present P e none w p = p
Leads-present P e (some s) w p = elim (Bool-cases (truthy (some s))) [
  | inl filled ↦ rw filled (p, refl)
  | inr empty ↦ rw empty p
]
