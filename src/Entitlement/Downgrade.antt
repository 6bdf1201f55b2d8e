-- ===== src/Entitlement/Downgrade.antt =====
-- After the reset of a product, reading its entitlements gives the free plan and nothing else.
use lurus_identity.Base.{ℕ, ◌≡◌, refl, String, ◌&&◌, not, none, List, [], ◌∷◌, arith, eq_iff}
use lurus_identity.Table.{first, select, insert}
use lurus_identity.Entity.Identity.{Entitlement}
use lurus_identity.Store.{Tables, CacheEntry, ok, pure, ◌>>=◌, follow, sql, try, ignore}
use lurus_identity.Store.Run.{run}
use lurus_identity.Entitlement.{
  of_product, of_key, is_current, free_plan, reset_to_free, delete_entitlements, upsert_entitlement,
  upsert, invalidate, cache_key, cache_without, get, cache_get, serve, refresh, get_entitlements,
  collect, put, with_plan_code, lookup, cache_set,
}

-- The rows of the other products.
abbrev others : ℕ → String → List Entitlement → List Entitlement
others a p es = select (λ e. not (of_product a p e)) es

first-others :
    (a : ℕ) (p k : String) (es : List Entitlement) → first (of_key a p k) (others a p es) ≡ none
unfolding first select
first-others a p k [] = refl
first-others a p k (e ∷ es) = ground (arith, first-others a p k es)

select-others :
    (now a : ℕ) (p : String) (es : List Entitlement)
    → select
        (λ e. of_product a p e && is_current now e.expires_at)
        (insert (free_plan a p) (others a p es))
      ≡ free_plan a p ∷ []
unfolding select
select-others now a p [] = ground (arith, eq_iff p p)
select-others now a p (e ∷ es) = ground (arith, select-others now a p es)

first-cache_without :
    (a : ℕ) (p : String) (cs : List CacheEntry)
    → first (cache_key a p) (cache_without a p cs) ≡ none
unfolding first select
first-cache_without a p [] = refl
first-cache_without a p (c ∷ cs) = ground (arith, first-cache_without a p cs)

-- The tables after a reset.
abbrev downgraded : ℕ → String → Tables → Tables
downgraded a p t = record t {
  entitlements = insert (free_plan a p) (others a p t.entitlements);
  cached = cache_without a p t.cached;
}

run-reset :
    (a : ℕ) (p : String) (t : Tables) → run (reset_to_free a p) t ≡ (ok tt, downgraded a p t)
unfolding run reset_to_free delete_entitlements upsert_entitlement upsert invalidate ignore follow
    sql ◌>>=◌
run-reset a p t = rw (first-others a p "plan_code" t.entitlements) refl

get-downgraded :
    (now a : ℕ) (p : String) (t : Tables)
    → (run (get now a p) (downgraded a p t)).0 ≡ ok (("plan_code", "free") ∷ [])
unfolding run get cache_get serve refresh get_entitlements try ignore cache_set follow sql pure
    ◌>>=◌ collect put with_plan_code lookup
get-downgraded now a p t =
    rw (first-cache_without a p t.cached) (rw (select-others now a p t.entitlements) refl)

-- Without failures, resetting a product of an account succeeds, and reading its entitlements afterwards,
-- at any time, gives the plan code `free` alone, whatever rows and cached entry there were.
pub get-reset :
    (now a : ℕ) (p : String) (t : Tables)
    → let (r, u) = run (reset_to_free a p) t in
      (r ≡ ok tt) × ((run (get now a p) u).0 ≡ ok (("plan_code", "free") ∷ []))
get-reset now a p t = rw (run-reset a p t) (refl, get-downgraded now a p t)
