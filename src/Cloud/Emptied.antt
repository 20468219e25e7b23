-- ===== src/Cloud/Emptied.antt =====
-- The teardown (commands/teardownAws.ts): how the loop that empties a bucket ends.
use saral.Base.{◌≡◌, ◌⊎◌, Bool, true, false, ◌||◌, List, [], ◌∷◌, String, keep}
use text.Mathlib.Text.{◌==◌ as str_eq}
use saral.Asset.Storage.{Attempt, got, threw}
use saral.Cloud.Sdk.{Command, Reply, Sdk}
use saral.Cloud.Action.{Action}
use saral.Cloud.Teardown.{present_ones}

abbrev pub has : String → List String → Bool
has k [] = false
has k (x ∷ xs) = str_eq k x || has k xs

-- What S3 promises of one bucket that nobody else writes to, where it fulfils a command: a listing
-- changes nothing, names objects of the bucket, names none only if there is none, and names all if it is
-- not truncated; a deletion leaves a part of the objects, whatever its errors for single keys; a
-- bucket whose deletion is fulfilled is gone. Any command may fail.
pub record BucketLaws {W : Type 0} (send : Sdk W) (objects : W → String → List String)
    (gone : W → String → Bool) (b : String) : Type 0 where
  pub listing_keeps : (w : W) → objects (send (Command.list_objects b 1000) w).0 b ≡ objects w b
  pub listed_are :
      (w : W) (r : Reply) (k : String)
      → (send (Command.list_objects b 1000) w).1 ≡ got r
      → has k (present_ones r.values) ≡ true
      → has k (objects w b) ≡ true
  pub listed_none :
      (w : W) (r : Reply)
      → (send (Command.list_objects b 1000) w).1 ≡ got r
      → present_ones r.values ≡ []
      → objects w b ≡ []
  pub listed_all :
      (w : W) (r : Reply)
      → (send (Command.list_objects b 1000) w).1 ≡ got r
      → r.is_truncated ≡ false
      → present_ones r.values ≡ objects w b
  pub left_part :
      (ks : List String) (w : W)
      → (f : String → Bool) × (objects (send (Command.delete_objects b ks) w).0 b
          ≡ keep f (objects w b))
  pub removed :
      (w : W) (r : Reply)
      → (send (Command.delete_bucket b) w).1 ≡ got r
      → gone (send (Command.delete_bucket b) w).0 b ≡ true

module _ {W : Type 0} (send : Sdk W) (objects : W → String → List String) (gone : W → String → Bool)
    (b : String) where
  -- A deletion was fulfilled although a key that it was asked to delete is still there.
  abbrev pub Incomplete : Type 0
  Incomplete =
      (ks : List String) × (w : W) × (r : Reply) × (k : String) × ((send
          (Command.delete_objects b ks) w).1
        ≡ got r)
      × (has k ks ≡ true)
      × (has k (objects (send (Command.delete_objects b ks) w).0 b) ≡ true)

  -- A listing or a deletion of objects failed with this error.
  abbrev pub Refused : String → Type 0
  Refused e =
      (w : W) × (((send (Command.list_objects b 1000) w).1 ≡ threw e)
        ⊎ ((ks : List String) × ((send (Command.delete_objects b ks) w).1 ≡ threw e)))

  -- The bucket was empty, and was not deleted because of this error.
  abbrev pub Kept : String → Type 0
  Kept e = (w : W) × (objects w b ≡ []) × ((send (Command.delete_bucket b) w).1 ≡ threw e)

  -- How the whole ends.
  abbrev pub Finishes : W × Attempt Unit String → Type 0
  Finishes (w, got u) = gone w b ≡ true
  Finishes (w, threw e) = Refused e ⊎ Kept e ⊎ Incomplete

  abbrev Empties : W × Attempt Unit String → Type 0
  Empties (w, got u) = (objects w b ≡ []) ⊎ Incomplete
  Empties (w, threw e) = Refused e ⊎ Incomplete
