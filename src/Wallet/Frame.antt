-- ===== src/Wallet/Frame.antt =====
-- Postings write wallets, the ledger and levels alone: what ignores those tables is kept.
use lurus_identity.Base.{ℕ, suc, Bool, String, List, ℤ}
use lurus_identity.Entity.Billing.{Wallet, WalletTransaction, PaymentOrder}
use lurus_identity.Entity.Identity.{AccountVip}
use lurus_identity.Store.{Tables}
use lurus_identity.Store.Keeps.{
  Keeps, Keeps-sql, Keeps-bind, Keeps-transaction, Keeps-ignore, Keeps-pure, keeps_rules,
}
use lurus_identity.Vip.Frame.{recalculate_from_wallet-Keeps}
use lurus_identity.Wallet.Repo.{
  TxInfo, lock_wallet, reread_wallet, create_entry, credit, mark_payment_order_paid, set_paid_where,
  get_payment_order_by_no,
}
use lurus_identity.Wallet.Service.{topup, credit_topup, mark_order_paid}

module _ {P : Tables → Type 0}
    (frame_wallets : (t : Tables) (ws : List Wallet) → P t → P (record t { wallets = ws }))
    (frame_ledger : (t : Tables) (es : List WalletTransaction)
      → P t
      → P (record t { next_id = suc t.next_id; transactions = es })) where
  lock_wallet-Keeps : (a : ℕ) → Keeps P (lock_wallet a)
  unfolding lock_wallet
  lock_wallet-Keeps a = search keeps_rules

  reread_wallet-Keeps : (i : ℕ) → Keeps P (reread_wallet i)
  unfolding reread_wallet
  reread_wallet-Keeps i = search keeps_rules

  create_entry-Keeps :
      (a : ℕ) (amount : ℤ) (info : TxInfo) (w : Wallet) → Keeps P (create_entry a amount info w)
  unfolding create_entry
  create_entry-Keeps a amount info w = Keeps-sql _ (λ t h. frame_ledger t _ h)

  pub credit-Keeps : (a : ℕ) (amount : ℤ) (info : TxInfo) → Keeps P (credit a amount info)
  unfolding credit
  credit-Keeps a amount info = Keeps-transaction _ (
      Keeps-bind _ _ (lock_wallet-Keeps a) λ w.
        Keeps-bind _ _ (Keeps-sql _ (λ t h. frame_wallets t _ h)) λ _.
          Keeps-bind _ _ (reread_wallet-Keeps w.id) (λ w'. create_entry-Keeps a amount info w'))

  module _
      (frame_vips : (t : Tables) (vs : List AccountVip) → P t → P (record t { vips = vs })) where
    pub topup-Keeps : (a : ℕ) (amount : ℤ) (n : String) → Keeps P (topup a amount n)
    unfolding topup
    topup-Keeps a amount n = Keeps-bind _ _ (credit-Keeps a amount _) λ tx.
        Keeps-bind _ _ (Keeps-ignore _ (recalculate_from_wallet-Keeps frame_vips a))
          (λ _. Keeps-pure tx)

    module _
        (frame_orders : (t : Tables) (os : List PaymentOrder)
          → P t
          → P (record t { orders = os })) where
      mark_payment_order_paid-Keeps :
          (now : ℕ) (n : String) → Keeps P (mark_payment_order_paid now n)
      unfolding mark_payment_order_paid set_paid_where get_payment_order_by_no
      mark_payment_order_paid-Keeps now n =
          Keeps-bind _ _ (Keeps-sql _ (λ t h. frame_orders t _ h)) (λ rows. search keeps_rules)

      credit_topup-Keeps : (b : Bool) (o : PaymentOrder) → Keeps P (credit_topup b o)
      unfolding credit_topup
      credit_topup-Keeps b o = search (keeps_rules, topup-Keeps)

      pub mark_order_paid-Keeps : (now : ℕ) (n : String) → Keeps P (mark_order_paid now n)
      unfolding mark_order_paid
      mark_order_paid-Keeps now n =
          search (keeps_rules, mark_payment_order_paid-Keeps, credit_topup-Keeps)
