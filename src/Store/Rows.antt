-- ===== src/Store/Rows.antt =====
-- Laws of the list operations that stand for SELECT, INSERT and UPDATE on a table of src/api/models.
use saral.Base.{
  ◌≡◌, refl, Bool, true, false, none, some, List, [], ◌∷◌, ◌++◌, arith, find, tally, length,
}
use saral.Store.Tables.{update_where}

module _ {ℓ} {A : Type ℓ} where
  pub tally_of_none : (p : A → Bool) (xs : List A) → find p xs ≡ none → tally p xs ≡ 0
  tally_of_none p [] h = refl
  tally_of_none p (x ∷ xs) h = ground (arith, tally_of_none p xs)

  pub find-append :
      (p : A → Bool) (xs : List A) (y : A)
      → find p xs ≡ none
      → p y ≡ true
      → find p (xs ++ y ∷ []) ≡ some y
  find-append p [] y h k = ground arith
  find-append p (x ∷ xs) y h k = ground (arith, find-append p xs y)

  pub find-append_other :
      (p : A → Bool) (xs : List A) (y : A) → p y ≡ false → find p (xs ++ y ∷ []) ≡ find p xs
  find-append_other p [] y k = ground arith
  find-append_other p (x ∷ xs) y k = ground (arith, find-append_other p xs y k)

  pub find-holds : (p : A → Bool) (xs : List A) (x : A) → find p xs ≡ some x → p x ≡ true
  find-holds p [] x h = cc
  find-holds p (y ∷ xs) x h = ground (arith, find-holds p xs x)

  pub length-update_where :
      (p : A → Bool) (f : A → A) (xs : List A) → length (update_where p f xs) ≡ length xs
  length-update_where p f [] = refl
  length-update_where p f (x ∷ xs) = ground (arith, length-update_where p f xs)

  -- An update that leaves what a test reads.
  module _ (p q : A → Bool) (f : A → A) (same : (x : A) → q (f x) ≡ q x) where
    pub tally-update_where : (xs : List A) → tally q (update_where p f xs) ≡ tally q xs
    tally-update_where [] = refl
    tally-update_where (x ∷ xs) = ground (arith, same x, tally-update_where xs)

    pub find-update_where_other :
        ((x : A) → p x ≡ true → q x ≡ false)
        → (xs : List A) → find q (update_where p f xs) ≡ find q xs
    find-update_where_other apart [] = refl
    find-update_where_other apart (x ∷ xs) =
        ground (arith, same x, apart x, find-update_where_other apart xs)

  pub find-update_where :
      (p : A → Bool) (f : A → A)
      → ((x : A) → p (f x) ≡ p x)
      → (xs : List A) (x : A) → find p xs ≡ some x
      → find p (update_where p f xs) ≡ some (f x)
  find-update_where p f same [] x h = cc
  find-update_where p f same (y ∷ xs) x h = ground (arith, same y, find-update_where p f same xs x)
