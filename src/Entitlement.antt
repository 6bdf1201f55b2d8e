-- ===== src/Entitlement.antt =====
-- internal/app/entitlement_service.go, with the entitlement queries of
-- internal/adapter/repo/subscription.go and the cache of internal/pkg/cache/entitlement.go.
-- Go's random order over a map does not show: the keys of `entries` are distinct. A cached entry may
-- also vanish by its TTL, which is the same as a failing read here.
pub mod Frame
pub mod Downgrade
pub mod Tests
use lurus_identity.Base.{
  ℕ, String, Bool, true, false, ◌&&◌, ◌||◌, not, Option, none, some, List, [], ◌∷◌, ◌==◌, ltb,
  str_eq, if◌then◌else◌,
}
use lurus_identity.Table.{first, update, select, insert}
use lurus_identity.Entity.Identity.{Entitlement, Subscription, ProductPlan, Feature}
use lurus_identity.Store.{
  CacheEntry, Error, Result, ok, M, ⊤, pure, ◌>>=◌, ◌>>◌, require, query, exec, ignore, must, try,
}

-- A Go map from strings to strings.
abbrev pub Entries : Type 0
Entries = List (String × String)

unfoldable pub lookup : String → Entries → Option String
lookup k [] = none
lookup k ((j, v) ∷ m) = if str_eq j k then some v else lookup k m

-- `m[k] = v`
unfoldable pub put : String → String → Entries → Entries
put k v [] = (k, v) ∷ []
put k v ((j, w) ∷ m) = if str_eq j k then (k, v) ∷ m else (j, w) ∷ put k v m

abbrev pub of_product : ℕ → String → Entitlement → Bool
of_product a p e = e.account_id == a && str_eq e.product_id p

abbrev pub of_key : ℕ → String → String → Entitlement → Bool
of_key a p k e = (e.account_id == a && str_eq e.product_id p) && str_eq e.key k

abbrev pub has_plan_id : ℕ → ProductPlan → Bool
has_plan_id i p = p.id == i

unfoldable pub get_plan_by_id : ℕ → M (Option ProductPlan)
get_plan_by_id i = query (λ t. first (has_plan_id i) t.plans)

-- `expires_at IS NULL OR expires_at > NOW()`
abbrev pub is_current : ℕ → Option ℕ → Bool
is_current now none = true
is_current now (some e) = ltb now e

unfoldable pub get_entitlements : ℕ → ℕ → String → M (List Entitlement)
get_entitlements now a p =
    query (λ t. select (λ e. of_product a p e && is_current now e.expires_at) t.entitlements)

-- gorm's `Assign` of a struct writes its fields that are not zero: an empty text or a nil keeps what
-- the row had.
abbrev pub or_text : String → String → String
or_text new old = if str_eq new "" then old else new

abbrev pub or_some : Option ℕ → Option ℕ → Option ℕ
or_some none old = old
or_some (some n) old = some n

abbrev pub assigned : Entitlement → Entitlement → Entitlement
assigned e row = record row {
  value = or_text e.value row.value;
  value_type = or_text e.value_type row.value_type;
  source = or_text e.source row.source;
  source_ref = or_some e.source_ref row.source_ref;
  expires_at = or_some e.expires_at row.expires_at;
}

-- `Where(…).Assign(…).FirstOrCreate(e)`
unfoldable pub upsert : Entitlement → Option Entitlement → List Entitlement → List Entitlement
upsert e (some _) es = update (of_key e.account_id e.product_id e.key) (assigned e) es
upsert e none es = insert e es

unfoldable pub upsert_entitlement : Entitlement → M ⊤
unfolding upsert
upsert_entitlement e = exec λ t. record t {
  entitlements =
      upsert e (first (of_key e.account_id e.product_id e.key) t.entitlements) t.entitlements;
}

unfoldable pub delete_entitlements : ℕ → String → M ⊤
delete_entitlements a p =
    exec (λ t. record t { entitlements = select (λ e. not (of_product a p e)) t.entitlements })

abbrev pub cache_key : ℕ → String → CacheEntry → Bool
cache_key a p c = c.account_id == a && str_eq c.product_id p

unfoldable pub cache_get : ℕ → String → M (Option CacheEntry)
cache_get a p = query (λ t. first (cache_key a p) t.cached)

abbrev pub cache_without : ℕ → String → List CacheEntry → List CacheEntry
cache_without a p cs = select (λ c. not (cache_key a p c)) cs

unfoldable pub cache_set : ℕ → String → Entries → M ⊤
cache_set a p m = exec λ t. record t {
  cached = record { account_id = a; product_id = p; entries = m } ∷ cache_without a p t.cached;
}

unfoldable pub invalidate : ℕ → String → M ⊤
invalidate a p = exec (λ t. record t { cached = cache_without a p t.cached })

-- The loop over the rows.
unfoldable pub collect : List Entitlement → Entries → Entries
unfolding put
collect [] m = m
collect (e ∷ es) m = collect es (put e.key e.value m)

unfoldable pub with_plan_code : Entries → Entries
unfolding lookup put
with_plan_code m = elim (lookup "plan_code" m) [ some _ ↦ m | none ↦ put "plan_code" "free" m ]

unfoldable pub refresh : ℕ → ℕ → String → M Entries
unfolding collect with_plan_code
refresh now a p = do
  rows ← get_entitlements now a p
  ignore (cache_set a p (with_plan_code (collect rows [])))
  pure (with_plan_code (collect rows []))

unfoldable pub serve : ℕ → ℕ → String → Result (Option CacheEntry) → M Entries
serve now a p (ok (some c)) = pure c.entries
serve now a p _ = refresh now a p

unfoldable pub get : ℕ → ℕ → String → M Entries
unfolding serve
get now a p = do c ← try (cache_get a p); serve now a p c

unfoldable pub any_to_string : Feature → String
any_to_string (Feature.text s) = s
any_to_string (Feature.bool true) = "true"
any_to_string (Feature.bool false) = "false"
any_to_string (Feature.number s) = s
any_to_string (Feature.nested s) = s

-- The entries of a plan: its code, then its features, which may name `plan_code` again.
unfoldable pub add_features : List (String × Feature) → Entries → Entries
unfolding put any_to_string
add_features [] m = m
add_features ((k, v) ∷ fs) m = add_features fs (put k (any_to_string v) m)

-- What strconv.ParseInt and strconv.ParseFloat accept.
pub record Numerals : Type 0 where
  pub is_integer : String → Bool
  pub is_decimal : String → Bool

unfoldable pub infer_value_type : Numerals → String → String
infer_value_type ns v =
    if str_eq v "true" || str_eq v "false"
    then "boolean"
    else if ns.is_integer v
    then "integer"
    else if ns.is_decimal v
    then "decimal"
    else "string"

unfoldable pub entitlement_of : Numerals → Subscription → String → String → Entitlement
unfolding infer_value_type
entitlement_of ns sub k v = record {
  account_id = sub.account_id;
  product_id = sub.product_id;
  key = k;
  value = v;
  value_type = infer_value_type ns v;
  source = "subscription";
  source_ref = some sub.id;
  expires_at = sub.expires_at;
}

-- The loop over the entries; the first failing write ends it.
unfoldable pub upsert_all : Numerals → Subscription → Entries → M ⊤
unfolding entitlement_of
upsert_all ns sub [] = pure tt
upsert_all ns sub ((k, v) ∷ m) =
    upsert_entitlement (entitlement_of ns sub k v) >> upsert_all ns sub m

unfoldable pub sync_from_subscription : Numerals → Subscription → M ⊤
unfolding add_features put upsert_all
sync_from_subscription ns sub = do
  plan ← must (get_plan_by_id sub.plan_id) Error.plan_not_found
  features ← require plan.features Error.bad_features
  upsert_all ns sub (add_features features (put "plan_code" plan.code []))
  ignore (invalidate sub.account_id sub.product_id)

abbrev pub free_plan : ℕ → String → Entitlement
free_plan a p = record {
  account_id = a;
  product_id = p;
  key = "plan_code";
  value = "free";
  value_type = "string";
  source = "system";
  source_ref = none;
  expires_at = none;
}

unfoldable pub reset_to_free : ℕ → String → M ⊤
reset_to_free a p = do
  delete_entitlements a p
  upsert_entitlement (free_plan a p)
  ignore (invalidate a p)
