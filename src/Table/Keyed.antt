-- ===== src/Table/Keyed.antt =====
-- Tables with a primary key: every row has an id of its own, below the next value of the sequence.
use mathlib.Core.Option
use lurus_identity.Base.{
  ℕ, ◌<◌, ◌≤◌, ◌≡◌, refl, subst, ap, ◌∙◌, inl, inr, Bool, true, false, none, some, List, [], ◌∷◌,
  arith, Bool-cases, ◌==◌, if◌then◌else◌,
}
use lurus_identity.Table.{first, update, select, insert}
use lurus_identity.Table.Laws.{first-update, first-insert, updated, All, All-map}

module _ {A : Type 0} (id : A → ℕ) where
  abbrev pub with_id : ℕ → A → Bool
  with_id i x = id x == i

  abbrev pub IsKeyed : ℕ → List A → Type 0
  IsKeyed n [] = Unit
  IsKeyed n (x ∷ xs) = (id x < n) × (first (with_id (id x)) xs ≡ none) × IsKeyed n xs

  -- A row that a query finds is the row that its id finds.
  pub first-with_id :
      (n : ℕ) (p : A → Bool) (xs : List A) {x : A}
      → IsKeyed n xs
      → first p xs ≡ some x
      → first (with_id (id x)) xs ≡ some x
  unfolding first
  first-with_id n p [] k h = cc
  first-with_id n p (y ∷ xs) {x} k h = elim (Bool-cases (p y)) [
    | inl e ↦ let same : some y ≡ some x = rw e at h in ground arith
    | inr e ↦
        let later : first p xs ≡ some x = rw e at h in
        let ih = first-with_id n p xs k.2 later in
        elim (Bool-cases (id y == id x)) [
          | inl s ↦
              let eq : id y ≡ id x = ground arith in
              absurd (cc (ih, subst (λ i. first (with_id i) xs ≡ none) eq k.1))
          | inr d ↦ rw d ih
        ]
  ]

  -- Two queries that find rows of one id find the same row.
  pub first_unique :
      (n : ℕ) (p q : A → Bool) (xs : List A) {x y : A}
      → IsKeyed n xs
      → first p xs ≡ some x
      → first q xs ≡ some y
      → id x ≡ id y
      → x ≡ y
  first_unique n p q xs {x} {y} k h h' e =
      let a = first-with_id n p xs k h in
      let b = first-with_id n q xs k h' in
      let c = subst (λ i. first (with_id i) xs ≡ some x) e a in cc

  with_id-updated :
      (q : A → Bool) (f : A → A)
      → ((x : A) → id (f x) ≡ id x)
      → (i : ℕ) (x : A) → with_id i (f x) ≡ with_id i x
  with_id-updated q f h i x = rw (h x)

  id-updated :
      (b : Bool) (f : A → A) (x : A)
      → ((x : A) → id (f x) ≡ id x)
      → id (if b then f x else x) ≡ id x
  id-updated true f x h = h x
  id-updated false f x h = refl

  pub IsKeyed-update :
      (n : ℕ) (q : A → Bool) (f : A → A) (xs : List A)
      → ((x : A) → id (f x) ≡ id x)
      → IsKeyed n xs
      → IsKeyed n (update q f xs)
  unfolding update first
  IsKeyed-update n q f [] h k = tt
  IsKeyed-update n q f (x ∷ xs) h k = rw (id-updated (q x) f x h) (
    k.0,
    first-update (with_id (id x)) q f xs (λ z. with_id-updated q f h (id x) z)
        ∙ ap (Option.map (updated q f)) k.1,
    IsKeyed-update n q f xs h k.2,
  )

  pub IsKeyed-mono : (n m : ℕ) (xs : List A) → n ≤ m → IsKeyed n xs → IsKeyed m xs
  IsKeyed-mono n m [] h k = tt
  IsKeyed-mono n m (x ∷ xs) h k = (omega arith, k.1, IsKeyed-mono n m xs h k.2)

  -- A row with the next value of the sequence keeps the key.
  pub IsKeyed-insert :
      (n m : ℕ) (y : A) (xs : List A) → id y ≡ n → n < m → IsKeyed n xs → IsKeyed m (insert y xs)
  unfolding first
  IsKeyed-insert n m y [] e l k = (omega arith, refl, tt)
  IsKeyed-insert n m y (x ∷ xs) e l k = (
    omega arith,
    first-insert (with_id (id x)) y xs ∙ ground arith,
    IsKeyed-insert n m y xs e l k.2,
  )

  select-none : (p q : A → Bool) (xs : List A) → first q xs ≡ none → first q (select p xs) ≡ none
  unfolding first select
  select-none p q [] h = refl
  select-none p q (x ∷ xs) h = ground (arith, select-none p q xs)

  pub IsKeyed-select : (n : ℕ) (p : A → Bool) (xs : List A) → IsKeyed n xs → IsKeyed n (select p xs)
  unfolding select
  IsKeyed-select n p [] k = tt
  IsKeyed-select n p (x ∷ xs) k = elim (Bool-cases (p x)) [
    | inl e ↦ rw e (k.0, select-none p (with_id (id x)) xs k.1, IsKeyed-select n p xs k.2)
    | inr e ↦ rw e (IsKeyed-select n p xs k.2)
  ]

  other_row :
      (x y : A) (xs : List A)
      → first (with_id (id x)) xs ≡ none
      → first (with_id (id y)) xs ≡ some y
      → first (with_id (id y)) (x ∷ xs) ≡ some y
  unfolding first
  other_row x y xs h k = elim (Bool-cases (id x == id y)) [
    | inl e ↦
        let eq : id x ≡ id y = ground arith in
        absurd (cc (k, subst (λ i. first (with_id i) xs ≡ none) eq h))
    | inr e ↦ rw e k
  ]

  -- Every row is the one that its id finds.
  pub IsKeyed-found :
      (n : ℕ) (xs : List A) → IsKeyed n xs → All (λ x. first (with_id (id x)) xs ≡ some x) xs
  unfolding first
  IsKeyed-found n [] k = tt
  IsKeyed-found n (x ∷ xs) k =
      (ground arith, All-map xs (λ y h. other_row x y xs k.1 h) (IsKeyed-found n xs k.2))
