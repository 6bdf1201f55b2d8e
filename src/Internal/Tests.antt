-- ===== src/Internal/Tests.antt =====
-- Requests of other services.
use lurus_identity.Base.{◌≡◌, refl, some, pos}
use lurus_identity.Table.{first}
use lurus_identity.Store.{ok, empty, pure, ◌>>=◌, try, sql}
use lurus_identity.Store.Run.{calm, run}
use lurus_identity.Wallet.Repo.{of_account, get_by_account_id}
use lurus_identity.Wallet.Tests.{shop, wallet_of_7, shop-IsReconciled}
use lurus_identity.Internal.{refuses, panics, Movement, debit_wallet, get_wallet_balance}
use lurus_identity.Internal.Debits.{Answered, debit_wallet-Answered}

abbrev overage : Movement
overage = record { amount = pos 200; tx_type = "ai_overage"; product_id = "llm" }

found : first (of_account 7) shop.wallets ≡ some wallet_of_7
unfolding first
found = refl

debit_wallet-Answered_example :
    Answered 7 (pos 200) wallet_of_7 (calm shop) (debit_wallet (some 7) overage (calm shop))
debit_wallet-Answered_example =
    debit_wallet-Answered 7 overage (calm shop) wallet_of_7 shop-IsReconciled found

-- An account that has no wallet.
no_wallet : run (get_wallet_balance (some 9)) empty ≡ (ok panics, empty)
unfolding run get_wallet_balance ◌>>=◌ try sql pure first get_by_account_id
no_wallet = refl

without_type :
    run (debit_wallet (some 7) (record overage { tx_type = "" })) shop
    ≡ (ok (refuses 400 "required"), shop)
unfolding run debit_wallet pure
without_type = refl
