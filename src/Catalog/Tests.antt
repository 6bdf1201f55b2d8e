-- ===== src/Catalog/Tests.antt =====
-- A body that names the id of another product.
use lurus_identity.Base.{◌≡◌, refl, String, [], ◌∷◌}
use lurus_identity.Table.{first, update}
use lurus_identity.Entity.Catalog.{Product}
use lurus_identity.Store.{Tables, ok, empty, pure, ◌>>=◌, try, sql}
use lurus_identity.Store.Run.{run}
use lurus_identity.Catalog.{admin_update_product}

abbrev product : String → String → Product
product i name = record {
  id = i;
  name = name;
  category = "";
  billing_model = "free";
  status = 1;
  sort_order = 0;
}

abbrev shop : Tables
shop = record empty { products = product "a" "A" ∷ product "b" "B" ∷ [] }

-- The other product takes the values, and the one that was named in the path keeps its own.
overwritten :
    run (admin_update_product "a" (λ p. record p { id = "b" })) shop
    ≡ (ok 200, record shop { products = product "a" "A" ∷ product "b" "A" ∷ [] })
unfolding run admin_update_product pure ◌>>=◌ try sql first update
overwritten = refl
