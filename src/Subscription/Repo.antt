-- ===== src/Subscription/Repo.antt =====
-- internal/adapter/repo/subscription.go, with the unique index idx_subs_active_unique of
-- migrations/001_identity_schema.sql: one live subscription for each account and product.
use lurus_identity.Base.{
  ℕ, suc, ◌+◌, String, Bool, true, false, ◌&&◌, not, Option, none, some, List, ◌==◌, ltb, leb,
  str_eq, if◌then◌else◌,
}
use lurus_identity.Table.{first, update, select, insert}
use lurus_identity.Entity.Identity.{Subscription, is_live, is_active, is_grace}
use lurus_identity.Store.{Tables, Error, Result, ok, err, M, ⊤, sql, query, exec}
use lurus_identity.Calendar.{one_day}

abbrev pub has_id : ℕ → Subscription → Bool
has_id i s = s.id == i

abbrev pub of_product : ℕ → String → Subscription → Bool
of_product a p s = s.account_id == a && str_eq s.product_id p

-- `account_id = ? AND product_id = ? AND status IN ('active','grace','trial')`
abbrev pub live_of : ℕ → String → Subscription → Bool
live_of a p s = of_product a p s && is_live s.status

-- A row of another id that the unique index holds against `s`.
abbrev pub rival : Subscription → Subscription → Bool
rival s r = live_of s.account_id s.product_id r && not (r.id == s.id)

abbrev pub conflict : Subscription → List Subscription → Option Subscription
conflict s ss = if is_live s.status then first (rival s) ss else none

unfoldable pub insert_sub :
    Subscription → Option Subscription → Tables → Result Subscription × Tables
insert_sub s (some _) t = (err Error.unique_violation, t)
insert_sub s none t =
    (ok s, record t { next_id = suc t.next_id; subscriptions = insert s t.subscriptions })

abbrev pub numbered : ℕ → Subscription → Subscription
numbered i s = record s { id = i }

unfoldable pub create : Subscription → M Subscription
unfolding insert_sub
create s = sql λ t. let s' = numbered t.next_id s in insert_sub s' (conflict s' t.subscriptions) t

unfoldable pub save_sub : Subscription → Option Subscription → Tables → Result ⊤ × Tables
save_sub s (some _) t = (err Error.unique_violation, t)
save_sub s none t =
    (ok tt, record t { subscriptions = update (has_id s.id) (λ _. s) t.subscriptions })

-- `Save` of a row that was read before.
unfoldable pub save : Subscription → M ⊤
unfolding save_sub
save s = sql (λ t. save_sub s (conflict s t.subscriptions) t)

unfoldable pub get_by_id : ℕ → M (Option Subscription)
get_by_id i = query (λ t. first (has_id i) t.subscriptions)

unfoldable pub get_active : ℕ → String → M (Option Subscription)
get_active a p = query (λ t. first (live_of a p) t.subscriptions)

abbrev pub past : ℕ → Option ℕ → Bool
past now none = false
past now (some e) = ltb e now

unfoldable pub list_active_expired : ℕ → M (List Subscription)
list_active_expired now = query (λ t.
    select (λ (s : Subscription). is_active s.status && past now s.expires_at) t.subscriptions)

unfoldable pub list_grace_expired : ℕ → M (List Subscription)
list_grace_expired now = query (λ t.
    select (λ (s : Subscription). is_grace s.status && past now s.grace_until) t.subscriptions)

-- `expires_at BETWEEN now AND now + 24h`
abbrev pub expires_soon : ℕ → Option ℕ → Bool
expires_soon now none = false
expires_soon now (some e) = leb now e && leb e (now + one_day)

-- `next_renewal_at IS NULL OR next_renewal_at <= now`
abbrev pub retry_due : ℕ → Option ℕ → Bool
retry_due now none = true
retry_due now (some e) = leb e now

unfoldable pub due_for_renewal : ℕ → Subscription → Bool
due_for_renewal now s =
    s.auto_renew
    && is_active s.status
    && expires_soon now s.expires_at
    && ltb s.renewal_attempts 3
    && retry_due now s.next_renewal_at

unfoldable pub list_due_for_renewal : ℕ → M (List Subscription)
unfolding due_for_renewal
list_due_for_renewal now = query (λ t. select (due_for_renewal now) t.subscriptions)

abbrev pub set_renewal : ℕ → Option ℕ → Subscription → Subscription
set_renewal attempts next s = record s { renewal_attempts = attempts; next_renewal_at = next }

unfoldable pub update_renewal_state : ℕ → ℕ → Option ℕ → M ⊤
update_renewal_state i attempts next = exec (λ t. record t {
  subscriptions = update (has_id i) (set_renewal attempts next) t.subscriptions;
})
