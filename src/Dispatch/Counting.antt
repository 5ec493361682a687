-- ===== src/Dispatch/Counting.antt =====
-- Counts of the rows of a table under UPDATE and INSERT.
use dazat_mobility.Base.{
  ◌+◌, ◌≤◌, Bool, true, none, some, List, [], ◌∷◌, ◌++◌, ◌≡◌, refl, if◌then◌else◌, every, arith,
}
use dazat_mobility.Booking.Store.{first_of, update_where}
use dazat_mobility.Dispatch.Market.{count}

module _ {ℓ} {A : Type ℓ} where
  pub count-append : (q : A → Bool) (xs ys : List A) → count q (xs ++ ys) ≡ count q xs + count q ys
  count-append q [] ys = omega arith
  count-append q (x ∷ xs) ys = omega (arith, count-append q xs ys)

  pub count-snoc :
      (q : A → Bool) (xs : List A) (x : A)
      → count q (xs ++ x ∷ []) ≡ count q xs + (if q x then 1 else 0)
  count-snoc q xs x = omega (arith, count-append q xs (x ∷ []))

  -- An update that keeps what a test says of the rows it changes.
  pub count-update_where :
      (q p : A → Bool) (f : A → A) (xs : List A)
      → ((a : A) → p a ≡ true → q (f a) ≡ q a)
      → count q (update_where p f xs) ≡ count q xs
  count-update_where q p f [] h = refl
  count-update_where q p f (x ∷ xs) h = ground (arith, h x, count-update_where q p f xs h)

  pub update_where_of_none :
      (p : A → Bool) (f : A → A) (xs : List A) → count p xs ≡ 0 → update_where p f xs ≡ xs
  update_where_of_none p f [] h = refl
  update_where_of_none p f (x ∷ xs) h = ground (arith, update_where_of_none p f xs)

  pub first_of-satisfies :
      (p : A → Bool) (xs : List A) (x : A) → first_of p xs ≡ some x → p x ≡ true
  first_of-satisfies p [] x h = absurd (ground arith)
  first_of-satisfies p (y ∷ ys) x h = ground (arith, first_of-satisfies p ys x)

  -- An update of the one row with a key.
  pub count-update_one :
      (q p : A → Bool) (f : A → A) (xs : List A) (x : A)
      → count p xs ≤ 1
      → first_of p xs ≡ some x
      → count q (update_where p f xs) + (if q x then 1 else 0)
        ≡ count q xs + (if q (f x) then 1 else 0)
  count-update_one q p f [] x one found = absurd (ground arith)
  count-update_one q p f (y ∷ ys) x one found =
      ground (arith, count-update_one q p f ys x, update_where_of_none p f ys)

  pub every-update_where :
      (q p : A → Bool) (f : A → A) (xs : List A)
      → ((a : A) → q (f a) ≡ q a)
      → every q (update_where p f xs) ≡ every q xs
  every-update_where q p f [] h = refl
  every-update_where q p f (x ∷ xs) h = ground (arith, h x, every-update_where q p f xs h)

  -- The row found by a key after an update that keeps the key.
  pub first_of-update_where :
      (p r : A → Bool) (f : A → A) (xs : List A)
      → ((a : A) → p (f a) ≡ p a)
      → (x : A) → first_of p xs ≡ some x
      → first_of p (update_where r f xs) ≡ some (if r x then f x else x)
  first_of-update_where p r f [] keeps x h = absurd (ground arith)
  first_of-update_where p r f (y ∷ ys) keeps x h =
      ground (arith, keeps y, first_of-update_where p r f ys keeps x)

  pub first_of-update_where-none :
      (p r : A → Bool) (f : A → A) (xs : List A)
      → ((a : A) → p (f a) ≡ p a)
      → first_of p xs ≡ none
      → first_of p (update_where r f xs) ≡ none
  first_of-update_where-none p r f [] keeps h = refl
  first_of-update_where-none p r f (y ∷ ys) keeps h =
      ground (arith, keeps y, first_of-update_where-none p r f ys keeps)
