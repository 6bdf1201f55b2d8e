-- ===== src/Catalog.antt =====
-- internal/app/product_service.go, internal/adapter/repo/product.go and
-- internal/adapter/handler/product.go, with the constraints of migrations/001_identity_schema.sql. A
-- handler's answer is an HTTP status. A body is decoded over the row that was read: a field that it does
-- not name keeps its value.
pub mod Tests
use lurus_identity.Base.{
  ℕ, suc, String, Bool, true, false, ◌&&◌, not, Option, none, some, List, [], ◌∷◌, ◌==◌, str_eq,
  if◌then◌else◌,
}
use lurus_identity.Table.{first, select, update, insert, order_by}
use lurus_identity.Entity.Catalog.{Product}
use lurus_identity.Entity.Identity.{ProductPlan}
use lurus_identity.Store.{Tables, Error, Result, ok, err, M, ⊤, pure, ◌>>=◌, ◌>>◌, query, sql, try}
use lurus_identity.Entitlement.{get_plan_by_id, has_plan_id}

abbrev pub has_id : String → Product → Bool
has_id i p = str_eq p.id i

unfoldable pub get_by_id : String → M (Option Product)
get_by_id i = query (λ t. first (has_id i) t.products)

unfoldable pub list_active : M (List Product)
list_active = query λ t.
    order_by (λ (p : Product). p.sort_order) (select (λ (p : Product). p.status == 1) t.products)

-- A status of 0 is left to the column's default, which is 1, when a row is made.
abbrev pub default_status : ℕ → ℕ
default_status status = if status == 0 then 1 else status

abbrev pub as_made : Product → Product
as_made p = record p { status = default_status p.status }

abbrev pub plan_as_made : ProductPlan → ProductPlan
plan_as_made p = record p { status = default_status p.status }

unfoldable pub insert_product : Product → Option Product → Tables → Result ⊤ × Tables
insert_product p (some _) t = (err Error.unique_violation, t)
insert_product p none t = (ok tt, record t { products = insert (as_made p) t.products })

unfoldable pub create : Product → M ⊤
unfolding insert_product
create p = sql (λ t. insert_product p (first (has_id p.id) t.products) t)

-- `Save`: the row of the id is written, or made when there is none.
unfoldable pub saved_product : Product → Option Product → Tables → Tables
saved_product p (some _) t = record t { products = update (has_id p.id) (λ _. p) t.products }
saved_product p none t = record t { products = insert (as_made p) t.products }

unfoldable pub save : Product → M ⊤
unfolding saved_product
save p = sql (λ t. (ok tt, saved_product p (first (has_id p.id) t.products) t))

abbrev pub has_code : String → String → ProductPlan → Bool
has_code product code p = str_eq p.product_id product && str_eq p.code code

unfoldable pub get_plan_by_code : String → String → M (Option ProductPlan)
get_plan_by_code product code = query (λ t. first (has_code product code) t.plans)

unfoldable pub list_plans : String → M (List ProductPlan)
list_plans product = query λ t.
    order_by (λ (p : ProductPlan). p.sort_order)
      (select (λ (p : ProductPlan). str_eq p.product_id product && p.status == 1) t.plans)

-- A plan of another id with the same product and code.
abbrev pub rival : ProductPlan → ProductPlan → Bool
rival p x = has_code p.product_id p.code x && not (x.id == p.id)

-- The constraints on a plan: its product is there, and no other plan of it has the code.
abbrev pub allowed : Option Product → Option ProductPlan → Tables → Tables → Result ⊤ × Tables
allowed none _ t' t = (err Error.foreign_key_violation, t)
allowed (some _) (some _) t' t = (err Error.unique_violation, t)
allowed (some _) none t' t = (ok tt, t')

abbrev pub checked_plan : ProductPlan → Tables → Tables → Result ⊤ × Tables
checked_plan p t' t =
    allowed (first (has_id p.product_id) t.products) (first (rival p) t.plans) t' t

unfoldable pub create_plan : ProductPlan → M ⊤
create_plan p = sql λ t.
    let p' = record p { id = t.next_id } in
    checked_plan p' (record t { next_id = suc t.next_id; plans = insert (plan_as_made p') t.plans })
      t

unfoldable pub saved_plan : ProductPlan → Option ProductPlan → List ProductPlan → List ProductPlan
saved_plan p (some _) plans = update (has_plan_id p.id) (λ _. p) plans
saved_plan p none plans = insert (plan_as_made p) plans

unfoldable pub update_plan : ProductPlan → M ⊤
unfolding saved_plan
update_plan p = sql λ t.
    checked_plan p (record t { plans = saved_plan p (first (has_plan_id p.id) t.plans) t.plans }) t

abbrev pub status_of : {A : Type 0} → ℕ → Result A → ℕ
status_of done (ok _) = done
status_of done (err _) = 500

unfoldable pub admin_create_product : Product → M ℕ
unfolding create
admin_create_product p = do r ← try (create p); pure (status_of 201 r)

-- What a body gives, over the row: it may give another id.
abbrev pub product_found : (Product → Product) → Result (Option Product) → M ℕ
product_found body (ok (some p)) = do r ← try (save (body p)); pure (status_of 200 r)
product_found body _ = pure 404

unfoldable pub admin_update_product : String → (Product → Product) → M ℕ
unfolding get_by_id save
admin_update_product i body = try (get_by_id i) >>= product_found body

unfoldable pub admin_create_plan : String → ProductPlan → M ℕ
unfolding create_plan
admin_create_plan product plan = do
  r ← try (create_plan (record plan { product_id = product }))
  pure (status_of 201 r)

abbrev pub plan_found : (ProductPlan → ProductPlan) → Result (Option ProductPlan) → M ℕ
plan_found body (ok (some p)) = do r ← try (update_plan (body p)); pure (status_of 200 r)
plan_found body _ = pure 404

unfoldable pub admin_update_plan : Option ℕ → (ProductPlan → ProductPlan) → M ℕ
unfolding get_plan_by_id update_plan
admin_update_plan none body = pure 400
admin_update_plan (some i) body = try (get_plan_by_id i) >>= plan_found body

unfoldable pub list_products : M (ℕ × List Product)
unfolding list_active
list_products = do r ← try list_active; pure (elim r [ ok ps ↦ (200, ps) | err _ ↦ (500, []) ])

unfoldable pub list_product_plans : String → M (ℕ × List ProductPlan)
unfolding list_plans
list_product_plans product = do
  r ← try (list_plans product)
  pure (elim r [ ok ps ↦ (200, ps) | err _ ↦ (500, []) ])
