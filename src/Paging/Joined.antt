-- ===== src/Paging/Joined.antt =====
-- The pages of a listing, joined.
use lurus_identity.Base.{
  ℕ, zero, suc, ◌+◌, ◌-◌, ◌*◌, ◌≤◌, ◌≡◌, refl, ap, ◌∙◌, Bool, List, [], ◌∷◌, ◌++◌, arith,
}
use lurus_identity.Table.{select, count, limit, offset, order_desc, place_desc}
use lurus_identity.Entity.Billing.{WalletTransaction}
use lurus_identity.Store.{Tables, Result, ok, err, pure, ◌>>=◌, sql}
use lurus_identity.Store.Run.{run}
use lurus_identity.Paging.{listing, list_transactions, transactions_of, transaction_of}

module _ {A : Type 0} where
  abbrev pub length : List A → ℕ
  length [] = 0
  length (x ∷ xs) = suc (length xs)

  limit-offset : (n m : ℕ) (xs : List A) → limit n xs ++ limit m (offset n xs) ≡ limit (n + m) xs
  unfolding limit offset
  limit-offset zero m xs = let e : m ≡ 0 + m = omega arith in ap (λ k. limit k xs) e
  limit-offset (suc n) zero [] = let e : suc n ≡ suc n + 0 = omega arith in ap (λ k. limit k []) e
  limit-offset (suc n) (suc m) [] =
      let e : suc (n + suc m) ≡ suc n + suc m = omega arith in ap (λ k. limit k []) e
  limit-offset (suc n) m (x ∷ xs) =
      let e : suc (n + m) ≡ suc n + m = omega arith in
      ap (λ ys. x ∷ ys) (limit-offset n m xs) ∙ ap (λ k. limit k (x ∷ xs)) e

  limit_zero : (xs : List A) → [] ≡ limit 0 xs
  unfolding limit
  limit_zero xs = refl

  limit_all : (n : ℕ) (xs : List A) → length xs ≤ n → limit n xs ≡ xs
  unfolding limit
  limit_all zero [] h = refl
  limit_all zero (x ∷ xs) h = absurd (omega arith)
  limit_all (suc n) [] h = refl
  limit_all (suc n) (x ∷ xs) h = ap (λ ys. x ∷ ys) (limit_all n xs (omega arith))

  length-place :
      (key : A → ℕ) (x : A) (xs : List A) → length (place_desc key x xs) ≡ suc (length xs)
  unfolding place_desc
  length-place key x [] = refl
  length-place key x (y ∷ ys) = ground (arith, length-place key x ys)

  length-order : (key : A → ℕ) (xs : List A) → length (order_desc key xs) ≡ length xs
  unfolding order_desc
  length-order key [] = refl
  length-order key (x ∷ xs) = length-place key x (order_desc key xs) ∙ ap suc (length-order key xs)

  length-select : (p : A → Bool) (xs : List A) → length (select p xs) ≡ count p xs
  unfolding select count
  length-select p [] = refl
  length-select p (x ∷ xs) = ground (arith, length-select p xs)

  -- The rows of an answer.
  abbrev pub rows_of : Result (List A × ℕ) → List A
  rows_of (ok (rows, n)) = rows
  rows_of (err _) = []

  run-listing :
      (total : Tables → ℕ) (rows : Tables → List A) (page size : ℕ) (t : Tables)
      → (run (listing total rows page size) t).0
        ≡ ok (limit size (offset ((page - 1) * size) (rows t)), total t)
  unfolding run listing sql pure ◌>>=◌
  run-listing total rows page size t = refl

less : (k : ℕ) → suc k - 1 ≡ k
less k = omega arith

-- The rows of the first `k` pages.
unfoldable pub pages : ℕ → ℕ → Tables → ℕ → List WalletTransaction
unfolding list_transactions
pages a size t zero = []
pages a size t (suc k) = pages a size t k ++ rows_of (run (list_transactions a (suc k) size) t).0

pages-limit :
    (a size k : ℕ) (t : Tables) → pages a size t k ≡ limit (k * size) (transactions_of a t)
unfolding pages list_transactions
pages-limit a size zero t =
    let e : 0 ≡ 0 * size = omega arith in
    limit_zero (transactions_of a t) ∙ ap (λ n. limit n (transactions_of a t)) e
pages-limit a size (suc k) t =
    let start : (suc k - 1) * size ≡ k * size = ap (λ n. n * size) (less k) in
    let end : k * size + size ≡ suc k * size = grind arith in
    ap (λ xs. xs ++ rows_of (run (list_transactions a (suc k) size) t).0) (pages-limit a size k t)
    ∙ ap (λ r. limit (k * size) (transactions_of a t) ++ rows_of r)
        (run-listing _ (transactions_of a) (suc k) size t)
    ∙ ap
        (λ n. limit (k * size) (transactions_of a t) ++ limit size (offset n (transactions_of a t)))
        start
    ∙ limit-offset (k * size) size (transactions_of a t)
    ∙ ap (λ n. limit n (transactions_of a t)) end

-- The pages of an account's transactions, joined, are all of them, the newest first, as soon as they have
-- room for as many as there are.
pub pages_joined :
    (a size k : ℕ) (t : Tables)
    → count (transaction_of a) t.transactions ≤ k * size
    → pages a size t k ≡ transactions_of a t
pages_joined a size k t h =
    pages-limit a size k t
    ∙ limit_all (k * size) (transactions_of a t) (
        omega (
          arith,
          length-order (λ (x : WalletTransaction). x.id) (select (transaction_of a) t.transactions),
          length-select (transaction_of a) t.transactions,
        ))
