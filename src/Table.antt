-- ===== src/Table.antt =====
-- A database table as the list of its rows in primary-key order, and the gorm queries that the
-- repositories of internal/adapter/repo use on it.

pub mod Laws
pub mod Keyed
pub mod Count
pub mod Parts
use lurus_identity.Base.{
  ℕ, zero, suc, ◌+◌, Bool, true, false, not, Option, none, some, List, [], ◌∷◌, ◌++◌, leb,
  if◌then◌else◌,
}

module _ {ℓ} {A : Type ℓ} where
  -- `Where(p).First(&row)`
  unfoldable pub first : (A → Bool) → List A → Option A
  first p [] = none
  first p (x ∷ xs) = if p x then some x else first p xs

  -- `Where(p).Updates(…)`
  unfoldable pub update : (A → Bool) → (A → A) → List A → List A
  update p f [] = []
  update p f (x ∷ xs) = (if p x then f x else x) ∷ update p f xs

  -- `Where(p).Find(&rows)`
  unfoldable pub select : (A → Bool) → List A → List A
  select p [] = []
  select p (x ∷ xs) = let rest = select p xs in if p x then x ∷ rest else rest

  -- `Where(p).Count(&n)`, and the `RowsAffected` of an update
  unfoldable pub count : (A → Bool) → List A → ℕ
  count p [] = 0
  count p (x ∷ xs) = let rest = count p xs in if p x then suc rest else rest

  -- `Create(&row)`
  abbrev pub insert : A → List A → List A
  insert x xs = xs ++ x ∷ []

  -- One step of the sort below: the place of a row before the rows with a larger key.
  unfoldable pub place : (A → ℕ) → A → List A → List A
  place key x [] = x ∷ []
  place key x (y ∷ ys) =
      let later = y ∷ place key x ys in if leb (key x) (key y) then x ∷ y ∷ ys else later

  -- `Order("key ASC").Find(&rows)`
  unfoldable pub order_by : (A → ℕ) → List A → List A
  unfolding place
  order_by key [] = []
  order_by key (x ∷ xs) = place key x (order_by key xs)

  -- One step of the descending sort.
  unfoldable pub place_desc : (A → ℕ) → A → List A → List A
  place_desc key x [] = x ∷ []
  place_desc key x (y ∷ ys) =
      let later = y ∷ place_desc key x ys in if leb (key y) (key x) then x ∷ y ∷ ys else later

  -- `Order("key DESC").Find(&rows)`
  unfoldable pub order_desc : (A → ℕ) → List A → List A
  unfolding place_desc
  order_desc key [] = []
  order_desc key (x ∷ xs) = place_desc key x (order_desc key xs)

  -- `Limit(n).Find(&rows)`
  unfoldable pub limit : ℕ → List A → List A
  limit zero xs = []
  limit (suc n) [] = []
  limit (suc n) (x ∷ xs) = x ∷ limit n xs

  -- `Offset(n).Find(&rows)`
  unfoldable pub offset : ℕ → List A → List A
  offset zero xs = xs
  offset (suc n) [] = []
  offset (suc n) (x ∷ xs) = offset n xs

  -- `Where(p).Delete(…)`
  abbrev pub delete : (A → Bool) → List A → List A
  delete p xs = select (λ x. not (p x)) xs
