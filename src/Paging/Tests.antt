-- ===== src/Paging/Tests.antt =====
-- Three transactions on pages of two.
use lurus_identity.Base.{◌≡◌, refl, ℕ, pos, [], ◌∷◌, arith}
use lurus_identity.Table.{count}
use lurus_identity.Entity.Billing.{WalletTransaction, Reference}
use lurus_identity.Store.{Tables, empty}
use lurus_identity.Paging.{must_page_params, transaction_of, transactions_of}
use lurus_identity.Paging.Joined.{pages, pages_joined}

abbrev entry : ℕ → WalletTransaction
entry i = record {
  id = i;
  wallet_id = 1;
  account_id = 7;
  tx_type = "topup";
  amount = pos 100;
  balance_after = pos 100;
  product_id = "";
  reference_type = "payment_order";
  reference_id = Reference.plain "LO1";
}

abbrev ledger : Tables
ledger = record empty { transactions = entry 1 ∷ entry 2 ∷ entry 3 ∷ [] }

all_of_7 : count (transaction_of 7) ledger.transactions ≡ 3
unfolding count
all_of_7 = refl

pages_joined_example : pages 7 2 ledger 2 ≡ transactions_of 7 ledger
pages_joined_example = pages_joined 7 2 2 ledger (omega (arith, all_of_7))

defaults : must_page_params (pos 0) (pos 500) ≡ (1, 20)
unfolding must_page_params
defaults = refl
