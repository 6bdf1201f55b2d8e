-- ===== src/AdminConfig/Tests.antt =====
-- A process that starts with two rows, and an admin's updates.
use lurus_identity.Base.{◌≡◌, refl, String, Bool, true, false, Option, none, some, List, [], ◌∷◌}
use lurus_identity.Table.{first, update}
use lurus_identity.Text.{Text, codes}
use lurus_identity.Entity.Catalog.{AdminSetting}
use lurus_identity.Store.{Tables, ok, empty, pure, ◌>>=◌, try, sql}
use lurus_identity.Store.Run.{calm, run}
use lurus_identity.AdminConfig.{has_key, get_all, load, load_all, effective, get_effective}
use lurus_identity.AdminConfig.Handler.{mask, list_settings}
use lurus_identity.AdminConfig.Synced.{IsKeyed}
use lurus_identity.AdminConfig.History.{Request, after, after-IsEffective}

abbrev row : String → String → Bool → AdminSetting
row k value secret = record { key = k; value = value; is_secret = secret; updated_by = "system" }

abbrev settings : List AdminSetting
settings = row "epay_key" "k1" true ∷ row "epay_gateway_url" "" false ∷ []

abbrev start : Tables
start = record empty { settings = settings }

abbrev std : String → Option Text
std s = none

abbrev raw : String → Option Text
raw s = some (codes "png")

keyed : IsKeyed start.settings
unfolding first
keyed = (refl, (refl, tt))

loaded : load [] (calm start) ≡ (ok settings, calm start)
unfolding load ◌>>=◌ sql pure get_all
loaded = refl

abbrev requests : List Request
requests =
    Request.update none (("epay_key", "k2") ∷ ("stripe_secret_key", "s") ∷ [])
    ∷ Request.upload none "alipay" "QQ"
    ∷ Request.public "wechat"
    ∷ []

after-IsEffective_example :
    get_effective "epay_key" "env" (after std raw requests (settings, calm start)).0
    ≡ effective
        (first
          (has_key "epay_key")
          (after std raw requests (settings, calm start)).1.tables.settings)
        "env"
after-IsEffective_example =
    after-IsEffective std raw requests (calm start) (calm start) settings "epay_key" "env" keyed
      loaded

-- The value that was set, and the given one where the row is empty.
updated : get_effective "epay_key" "env" (after std raw requests (settings, calm start)).0 ≡ "k2"
unfolding after get_effective ◌>>=◌ try sql pure first update get_all
updated = refl

masked :
    run list_settings start
    ≡ (ok (200, row "epay_key" mask true ∷ row "epay_gateway_url" "" false ∷ []), start)
unfolding run list_settings ◌>>=◌ try sql pure load_all get_all
masked = refl
