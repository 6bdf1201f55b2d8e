-- ===== src/Table/Count.antt =====
-- How an insertion or an update changes the number of rows that a query finds.
use lurus_identity.Base.{
  ◌+◌, ◌≤◌, ◌≡◌, refl, Bool, true, false, none, List, [], ◌∷◌, arith, if◌then◌else◌,
}
use lurus_identity.Table.{first, update, select, count, insert}

module _ {ℓ} {A : Type ℓ} where
  pub count-insert :
      (p : A → Bool) (y : A) (xs : List A)
      → count p (insert y xs) ≡ count p xs + (if p y then 1 else 0)
  unfolding count
  count-insert p y [] = ground arith
  count-insert p y (x ∷ xs) = ground (arith, count-insert p y xs)

  -- An update that no row meets the query by.
  pub count-update_le :
      (p q : A → Bool) (f : A → A) (xs : List A)
      → ((x : A) → p (f x) ≡ true → p x ≡ true)
      → count p (update q f xs) ≤ count p xs
  unfolding count update
  count-update_le p q f [] h = omega arith
  count-update_le p q f (x ∷ xs) h = ground (arith, h x, count-update_le p q f xs h)

  -- An update of columns that the query does not test.
  pub count-update :
      (p q : A → Bool) (f : A → A) (xs : List A)
      → ((x : A) → p (f x) ≡ p x)
      → count p (update q f xs) ≡ count p xs
  unfolding count update
  count-update p q f [] h = refl
  count-update p q f (x ∷ xs) h = ground (arith, h x, count-update p q f xs h)

  -- An update after which its own rows do not meet its condition.
  pub count-update_self :
      (p : A → Bool) (f : A → A) (xs : List A)
      → ((x : A) → p (f x) ≡ false)
      → count p (update p f xs) ≡ 0
  unfolding count update
  count-update_self p f [] h = refl
  count-update_self p f (x ∷ xs) h = ground (arith, h x, count-update_self p f xs h)

  pub count-none : (p : A → Bool) (xs : List A) → first p xs ≡ none → count p xs ≡ 0
  unfolding first count
  count-none p [] h = refl
  count-none p (x ∷ xs) h = ground (arith, count-none p xs)

  -- Every row of the first query is in one of the others.
  pub count_cover :
      (p q r : A → Bool) (xs : List A)
      → ((x : A) → p x ≡ true → q x ≡ false → r x ≡ true)
      → count p xs ≤ count q xs + count r xs
  unfolding count
  count_cover p q r [] h = omega arith
  count_cover p q r (x ∷ xs) h = ground (arith, h x, count_cover p q r xs h)

  -- An update whose own rows meet the query afterwards only if they did before.
  pub count-update_where :
      (p q : A → Bool) (f : A → A) (xs : List A)
      → ((x : A) → q x ≡ true → p (f x) ≡ true → p x ≡ true)
      → count p (update q f xs) ≤ count p xs
  unfolding count update
  count-update_where p q f [] h = omega arith
  count-update_where p q f (x ∷ xs) h = ground (arith, h x, count-update_where p q f xs h)

  pub count-select_le : (p q : A → Bool) (xs : List A) → count p (select q xs) ≤ count p xs
  unfolding count select
  count-select_le p q [] = omega arith
  count-select_le p q (x ∷ xs) = ground (arith, count-select_le p q xs)

  -- A query that is met by no more rows.
  pub count_le :
      (p q : A → Bool) (xs : List A) → ((x : A) → p x ≡ true → q x ≡ true) → count p xs ≤ count q xs
  unfolding count
  count_le p q [] h = omega arith
  count_le p q (x ∷ xs) h = ground (arith, h x, count_le p q xs h)
