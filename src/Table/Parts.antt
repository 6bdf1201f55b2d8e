-- ===== src/Table/Parts.antt =====
-- A predicate on the parts of a list of rows.
use lurus_identity.Base.{ℕ, zero, suc, List, [], ◌∷◌, ◌++◌}
use lurus_identity.Table.{limit, offset}
use lurus_identity.Table.Laws.{All}

module _ {A : Type 0} (P : A → Type 0) where
  pub All-append : (xs ys : List A) → All P xs → All P ys → All P (xs ++ ys)
  All-append [] ys h k = k
  All-append (x ∷ xs) ys h k = (h.0, All-append xs ys h.1 k)

  pub All_front : (xs ys : List A) → All P (xs ++ ys) → All P xs
  All_front [] ys h = tt
  All_front (x ∷ xs) ys h = (h.0, All_front xs ys h.1)

  pub All_back : (xs ys : List A) → All P (xs ++ ys) → All P ys
  All_back [] ys h = h
  All_back (x ∷ xs) ys h = All_back xs ys h.1

  pub All_limit-offset : (n : ℕ) (xs : List A) → All P (limit n xs) → All P (offset n xs) → All P xs
  unfolding limit offset
  All_limit-offset zero xs h k = k
  All_limit-offset (suc n) [] h k = tt
  All_limit-offset (suc n) (x ∷ xs) h k = (h.0, All_limit-offset n xs h.1 k)

  pub All_offset : (n : ℕ) (xs : List A) → All P xs → All P (offset n xs)
  unfolding offset
  All_offset zero xs h = h
  All_offset (suc n) [] h = tt
  All_offset (suc n) (x ∷ xs) h = All_offset n xs h.1
