-- ===== src/Refund/History.antt =====
-- Any sequence of calls of the refund service, with any failing statements among them.
use lurus_identity.Base.{ℕ, String, List, [], ◌∷◌}
use lurus_identity.Store.{Db, M, ⊤, pure, ◌>>◌}
use lurus_identity.Store.Keeps.{Keeps, keeps_rules}
use lurus_identity.Refund
use lurus_identity.Refund.Once.{ArePaidOnce}
use lurus_identity.Refund.Reviews.{
  approve-ArePaidOnce, reject-ArePaidOnce, request_refund-ArePaidOnce,
}

-- The calls of the refund service that write, with the readings of the clock as arguments.
pub data Call : Type 0 where
  request : ℕ → String → ℕ → String → String → Call
  approve : ℕ → ℕ → String → String → String → Call
  reject : ℕ → String → String → String → Call

unfoldable pub perform : Call → M ⊤
perform (Call.request now refund_no a order_no reason) =
    Refund.request_refund now refund_no a order_no reason >> pure tt
perform (Call.approve now at n reviewer note) = Refund.approve now at n reviewer note
perform (Call.reject now n reviewer note) = Refund.reject now n reviewer note

-- The state after the calls, in turn; a call that fails is followed by the next one.
unfoldable pub after : List Call → Db → Db
after [] s = s
after (c ∷ cs) s = after cs (perform c s).1

perform-ArePaidOnce : (c : Call) → Keeps ArePaidOnce (perform c)
unfolding perform
perform-ArePaidOnce (Call.request now refund_no a order_no reason) =
    search (keeps_rules, request_refund-ArePaidOnce)
perform-ArePaidOnce (Call.approve now at n reviewer note) =
    approve-ArePaidOnce now at n reviewer note
perform-ArePaidOnce (Call.reject now n reviewer note) = reject-ArePaidOnce now n reviewer note

-- Whatever requests, approvals and rejections are made from a state where each refund is paid at most
-- once, whichever of their statements fail: the same holds after them, so a refund that is pending has
-- no payment in the ledger, and no refund has two.
pub after-ArePaidOnce :
    (cs : List Call) (s : Db) → ArePaidOnce s.tables → ArePaidOnce (after cs s).tables
unfolding after
after-ArePaidOnce [] s h = h
after-ArePaidOnce (c ∷ cs) s h =
    after-ArePaidOnce cs (perform c s).1 ((perform-ArePaidOnce c).at s h)
