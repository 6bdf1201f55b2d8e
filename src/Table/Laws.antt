-- ===== src/Table/Laws.antt =====
-- What an update or an insertion does to a later query.
use mathlib.Core.Option
use lurus_identity.Base.{
  ℕ, zero, suc, ◌≤◌, ◌≡◌, refl, subst, inl, inr, Bool, true, false, ◌||◌, none, some, List, [], ◌∷◌,
  arith, Bool-cases, ltb, ◌==◌, if◌then◌else◌,
}
use lurus_identity.Table.{first, update, select, count, insert, limit}

-- Every row has the property.
abbrev pub All {ℓ κ} : {A : Type ℓ} → (A → Type κ) → List A → Type κ
All P [] = Unit
All P (x ∷ xs) = P x × All P xs

module _ {ℓ} {A : Type ℓ} where
  pub first-holds : (p : A → Bool) (xs : List A) {x : A} → first p xs ≡ some x → p x ≡ true
  unfolding first
  first-holds p [] h = cc
  first-holds p (y ∷ xs) h = elim (Bool-cases (p y)) [
    | inl e ↦ ground (arith, (rw e at h))
    | inr e ↦ first-holds p xs (rw e at h)
  ]

  -- What an update makes of a row.
  abbrev pub updated : (A → Bool) → (A → A) → A → A
  updated q f x = if q x then f x else x

  -- An update that leaves the tested columns alone is seen by a query as it stands.
  pub first-update :
      (p q : A → Bool) (f : A → A) (xs : List A)
      → ((x : A) → p (f x) ≡ p x)
      → first p (update q f xs) ≡ Option.map (updated q f) (first p xs)
  unfolding first update
  first-update p q f [] h = refl
  first-update p q f (x ∷ xs) h = ground (arith, h x, first-update p q f xs h)

  pub first-insert :
      (p : A → Bool) (y : A) (xs : List A)
      → first p (insert y xs)
        ≡ elim (first p xs) [ some x ↦ some x | none ↦ if p y then some y else none ]
  unfolding first
  first-insert p y [] = refl
  first-insert p y (x ∷ xs) = ground (arith, first-insert p y xs)

  -- No row is affected exactly when the query finds none.
  pub count-zero :
      (p : A → Bool) (xs : List A)
      → ltb 0 (count p xs) ≡ elim (first p xs) [ some _ ↦ true | none ↦ false ]
  unfolding first count
  count-zero p [] = refl
  count-zero p (x ∷ xs) = ground (arith, count-zero p xs)

  pub update-none :
      (p : A → Bool) (f : A → A) (xs : List A) → first p xs ≡ none → update p f xs ≡ xs
  unfolding first update
  update-none p f [] h = refl
  update-none p f (x ∷ xs) h = ground (arith, update-none p f xs)

  pub All-update :
      (P : A → Type 0) (q : A → Bool) (f : A → A) (xs : List A)
      → ((x : A) → q x ≡ true → P x → P (f x))
      → All P xs
      → All P (update q f xs)
  unfolding update
  All-update P q f [] k h = tt
  All-update P q f (x ∷ xs) k h = (pick (q x) refl, All-update P q f xs k h.1)
    where
      pick : (b : Bool) → q x ≡ b → P (if b then f x else x)
      pick true e = k x e h.0
      pick false e = h.0

  pub All-insert : (P : A → Type 0) (y : A) (xs : List A) → P y → All P xs → All P (insert y xs)
  All-insert P y [] py h = (py, tt)
  All-insert P y (x ∷ xs) py h = (h.0, All-insert P y xs py h.1)

  pub All-first :
      (P : A → Type 0) (p : A → Bool) (xs : List A) {x : A} → All P xs → first p xs ≡ some x → P x
  unfolding first
  All-first P p [] h e = absurd (cc)
  All-first P p (y ∷ xs) {x} h e = elim (Bool-cases (p y)) [
    | inl t ↦ let same : some y ≡ some x = rw t at e in subst P (cc) h.0
    | inr t ↦ All-first P p xs h.1 (rw t at e)
  ]

  -- A query that some row meets affects a row.
  pub count-ne-zero :
      (p q : A → Bool) (xs : List A) {x : A}
      → first p xs ≡ some x
      → q x ≡ true
      → (count q xs == 0) ≡ false
  unfolding first count
  count-ne-zero p q [] h e = cc
  count-ne-zero p q (y ∷ xs) {x} h e = elim (Bool-cases (p y)) [
    | inl t ↦ let same : some y ≡ some x = rw t at h in ground arith
    | inr t ↦
        let later : first p xs ≡ some x = rw t at h in ground (arith, count-ne-zero p q xs later e)
  ]

  -- An update after which no changed row meets its condition leaves none that does.
  pub first-update_self :
      (p : A → Bool) (f : A → A) (xs : List A)
      → ((x : A) → p (f x) ≡ false)
      → first p (update p f xs) ≡ none
  unfolding first update
  first-update_self p f [] h = refl
  first-update_self p f (x ∷ xs) h = ground (arith, h x, first-update_self p f xs h)

  -- A row that a query finds is found by a narrower query that it meets.
  pub first_narrow :
      (p q : A → Bool) (xs : List A) {x : A}
      → ((y : A) → p y ≡ false → q y ≡ false)
      → first p xs ≡ some x
      → q x ≡ true
      → first q xs ≡ some x
  unfolding first
  first_narrow p q [] n h e = cc
  first_narrow p q (y ∷ xs) {x} n h e = elim (Bool-cases (p y)) [
    | inl t ↦ let same : some y ≡ some x = rw t at h in ground arith
    | inr f ↦
        let later : first p xs ≡ some x = rw f at h in rw (n y f) (first_narrow p q xs n later e)
  ]

  pub All-map : {P R : A → Type 0} (xs : List A) → ((x : A) → P x → R x) → All P xs → All R xs
  All-map [] k h = tt
  All-map (x ∷ xs) k h = (k x h.0, All-map xs k h.1)

  pub All-zip : (P R : A → Type 0) (xs : List A) → All P xs → All R xs → All (λ x. P x × R x) xs
  All-zip P R [] h k = tt
  All-zip P R (x ∷ xs) h k = ((h.0, k.0), All-zip P R xs h.1 k.1)

  pub All-select : (P : A → Type 0) (p : A → Bool) (xs : List A) → All P xs → All P (select p xs)
  unfolding select
  All-select P p [] h = tt
  All-select P p (x ∷ xs) h = elim (Bool-cases (p x)) [
    | inl e ↦ rw e (h.0, All-select P p xs h.1)
    | inr e ↦ rw e (All-select P p xs h.1)
  ]

  pub All-limit : (P : A → Type 0) (n : ℕ) (xs : List A) → All P xs → All P (limit n xs)
  unfolding limit
  All-limit P zero xs h = tt
  All-limit P (suc n) [] h = tt
  All-limit P (suc n) (x ∷ xs) h = (h.0, All-limit P n xs h.1)

  -- A query that finds nothing leaves nothing for a narrower one.
  pub first-none :
      (p q : A → Bool) (xs : List A)
      → ((x : A) → p x ≡ true → q x ≡ true)
      → first q xs ≡ none
      → first p xs ≡ none
  unfolding first
  first-none p q [] n h = refl
  first-none p q (x ∷ xs) n h = ground (arith, n x, first-none p q xs n)

  -- A row that a query finds is what another query finds that it alone meets.
  pub first_only :
      (p q : A → Bool) (xs : List A) {x : A}
      → first p xs ≡ some x
      → q x ≡ true
      → count q xs ≤ 1
      → first q xs ≡ some x
  unfolding first count
  first_only p q [] h e k = cc
  first_only p q (y ∷ xs) {x} h e k = elim (Bool-cases (p y)) [
    | inl t ↦ let same : some y ≡ some x = rw t at h in ground arith
    | inr f ↦
        let later : first p xs ≡ some x = rw f at h in
        let others = count-ne-zero p q xs later e in
        elim (Bool-cases (q y)) [
          | inl t ↦ absurd (ground (arith, others, rw t at k))
          | inr g ↦ rw g (first_only p q xs later e (rw g at k))
        ]
  ]

  -- Two queries that find nothing.
  pub first_neither :
      (p q : A → Bool) (xs : List A)
      → first p xs ≡ none
      → first q xs ≡ none
      → first (λ x. p x || q x) xs ≡ none
  unfolding first
  first_neither p q [] h k = refl
  first_neither p q (x ∷ xs) h k = ground (arith, first_neither p q xs)

  -- A query that some row meets finds one.
  pub first-some :
      (p q : A → Bool) (xs : List A) {x : A}
      → first p xs ≡ some x
      → q x ≡ true
      → (y : A) × (first q xs ≡ some y)
  unfolding first
  first-some p q [] h e = absurd (cc)
  first-some p q (y ∷ xs) {x} h e = elim (Bool-cases (q y)) [
    | inl t ↦ rw t (y, refl)
    | inr f ↦ elim (Bool-cases (p y)) [
      | inl g ↦ let same : some y ≡ some x = rw g at h in absurd (ground arith)
      | inr g ↦ rw f (first-some p q xs (rw g at h) e)
    ]
  ]
