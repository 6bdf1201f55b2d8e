-- ===== src/AdminConfig.antt =====
-- internal/app/admin_config_service.go and internal/adapter/repo/admin_settings.go: settings in the
-- database, with a copy in the memory of the process that an operation takes and returns. An operation
-- that fails leaves the copy as it was.
pub mod Handler
pub mod Synced
pub mod Reads
pub mod History
pub mod Tests
use lurus_identity.Base.{
  ℕ, String, Bool, true, false, not, Option, none, some, List, [], ◌∷◌, str_eq, if◌then◌else◌,
}
use lurus_identity.Table.{first, update, insert}
use lurus_identity.Entity.Catalog.{AdminSetting}
use lurus_identity.Store.{Tables, M, ⊤, pure, ◌>>=◌, ◌>>◌, query, exec}

abbrev pub has_key : String → AdminSetting → Bool
has_key k s = str_eq s.key k

unfoldable pub get_all : M (List AdminSetting)
get_all = query (λ t. t.settings)

abbrev pub assigned : String → String → AdminSetting → AdminSetting
assigned value by s = record s { value = value; updated_by = by }

abbrev pub new_setting : String → String → String → AdminSetting
new_setting k value by = record { key = k; value = value; is_secret = false; updated_by = by }

-- `ON CONFLICT (key) DO UPDATE`
unfoldable pub upsert_setting :
    String → String → String → Option AdminSetting → List AdminSetting → List AdminSetting
upsert_setting k value by (some _) rows = update (has_key k) (assigned value by) rows
upsert_setting k value by none rows = insert (new_setting k value by) rows

unfoldable pub set_row : String → String → String → M ⊤
unfolding upsert_setting
set_row k value by =
    exec λ t. record t {
      settings = upsert_setting k value by (first (has_key k) t.settings) t.settings;
    }

-- The sync.Map: one entry for a key.
abbrev pub ConfigCache : Type 0
ConfigCache = List AdminSetting

-- `cache.Store(st.Key, st)`
unfoldable pub store : AdminSetting → ConfigCache → ConfigCache
store st [] = st ∷ []
store st (x ∷ xs) = let rest = x ∷ store st xs in if str_eq x.key st.key then st ∷ xs else rest

-- `cache.Load(key)`
unfoldable pub cached : String → ConfigCache → Option AdminSetting
cached k c = first (has_key k) c

unfoldable pub store_all : List AdminSetting → ConfigCache → ConfigCache
unfolding store
store_all [] c = c
store_all (st ∷ sts) c = store_all sts (store st c)

unfoldable pub load : ConfigCache → M ConfigCache
unfolding store_all
load c = do settings ← get_all; pure (store_all settings c)

abbrev pub effective : Option AdminSetting → String → String
effective none env = env
effective (some st) env = if str_eq st.value "" then env else st.value

unfoldable pub get_effective : String → String → ConfigCache → String
unfolding cached
get_effective k env c = effective (cached k c) env

-- The loop over the rows: the first one of the key is copied.
abbrev pub reloaded : Option AdminSetting → ConfigCache → String × ConfigCache
reloaded none c = ("", c)
reloaded (some st) c = (st.value, store st c)

abbrev pub get_known : String → Option AdminSetting → ConfigCache → M (String × ConfigCache)
get_known k (some st) c = pure (st.value, c)
get_known k none c = do settings ← get_all; pure (reloaded (first (has_key k) settings) c)

unfoldable pub get : String → ConfigCache → M (String × ConfigCache)
unfolding cached store
get k c = get_known k (cached k c) c

-- The mark of a secret is kept from the copy.
abbrev pub secret_in : Option AdminSetting → Bool
secret_in none = false
secret_in (some old) = old.is_secret

unfoldable pub refreshed : String → String → String → ConfigCache → ConfigCache
unfolding cached store
refreshed k value by c =
    store (record (new_setting k value by) { is_secret = secret_in (cached k c) }) c

unfoldable pub set : String → String → String → ConfigCache → M ConfigCache
unfolding set_row refreshed
set k value by c = do set_row k value by; pure (refreshed k value by c)

unfoldable pub load_all : M (List AdminSetting)
load_all = get_all

-- The payment settings of internal/pkg/config.
pub record Config : Type 0 where
  pub epay_partner_id : String
  pub epay_key : String
  pub epay_gateway_url : String
  pub epay_notify_url : String
  pub stripe_secret_key : String
  pub stripe_webhook_secret : String
  pub creem_api_key : String
  pub creem_webhook_secret : String

-- An empty value leaves the field as it is.
abbrev pub or_kept : String → String → String
or_kept v old = if str_eq v "" then old else v

unfoldable pub apply_to_config : Config → ConfigCache → Config
unfolding get_effective
apply_to_config cfg c =
    let over = λ (k env : String). or_kept (get_effective k env c) env in
    record {
      epay_partner_id = over "epay_partner_id" cfg.epay_partner_id;
      epay_key = over "epay_key" cfg.epay_key;
      epay_gateway_url = over "epay_gateway_url" cfg.epay_gateway_url;
      epay_notify_url = over "epay_notify_url" cfg.epay_notify_url;
      stripe_secret_key = over "stripe_secret_key" cfg.stripe_secret_key;
      stripe_webhook_secret = over "stripe_webhook_secret" cfg.stripe_webhook_secret;
      creem_api_key = over "creem_api_key" cfg.creem_api_key;
      creem_webhook_secret = over "creem_webhook_secret" cfg.creem_webhook_secret;
    }
