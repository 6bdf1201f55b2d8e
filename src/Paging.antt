-- ===== src/Paging.antt =====
-- The paged listings of transactions and refunds in internal/adapter/repo (wallet.go, refund.go), with the page
-- parameters of internal/adapter/handler/invoice.go. Rows of one instant are listed in the order of their
-- ids, the newest first.
pub mod Joined
pub mod Tests
use lurus_identity.Base.{
  ℕ, ◌-◌, ◌*◌, Bool, true, false, ◌||◌, List, ◌==◌, ltb, ℤ, pos, negsuc, if◌then◌else◌,
}
use lurus_identity.Table.{select, count, limit, offset, order_desc}
use lurus_identity.Entity.Billing.{WalletTransaction, Refund}
use lurus_identity.Store.{Tables, M, pure, ◌>>=◌, query}

-- A parameter that is no number is 0.
abbrev pub page_number : ℤ → ℕ
page_number (pos n) = if n == 0 then 1 else n
page_number (negsuc n) = 1

abbrev pub page_size : ℤ → ℕ
page_size (pos n) = if n == 0 || ltb 100 n then 20 else n
page_size (negsuc n) = 20

unfoldable pub must_page_params : ℤ → ℤ → ℕ × ℕ
must_page_params page size = (page_number page, page_size size)

-- The number of the rows and a page of them, from two statements. Pages count from 1.
unfoldable pub listing : {A : Type 0} → (Tables → ℕ) → (Tables → List A) → ℕ → ℕ → M (List A × ℕ)
listing total rows page size = do
  n ← query total
  list ← query (λ t. limit size (offset ((page - 1) * size) (rows t)))
  pure (list, n)

abbrev pub transaction_of : ℕ → WalletTransaction → Bool
transaction_of a x = x.account_id == a

abbrev pub transactions_of : ℕ → Tables → List WalletTransaction
transactions_of a t =
    order_desc (λ (x : WalletTransaction). x.id) (select (transaction_of a) t.transactions)

unfoldable pub list_transactions : ℕ → ℕ → ℕ → M (List WalletTransaction × ℕ)
unfolding listing
list_transactions a page size =
    listing (λ t. count (transaction_of a) t.transactions) (transactions_of a) page size

abbrev pub refund_of : ℕ → Refund → Bool
refund_of a r = r.account_id == a

unfoldable pub list_refunds : ℕ → ℕ → ℕ → M (List Refund × ℕ)
unfolding listing
list_refunds a page size =
    listing (λ t. count (refund_of a) t.refunds)
      (λ t. order_desc (λ (r : Refund). r.created_at) (select (refund_of a) t.refunds)) page size
