-- ===== src/Account/Service.antt =====
-- internal/app/account_service.go. Affiliate codes are random; each is an argument.
use lurus_identity.Base.{ℕ, String, ◌+s◌, false, Option, none, some, [], str_eq}
use lurus_identity.Entity.Identity.{Account, OAuthBinding, status_active}
use lurus_identity.Username.{generate_lurus_id}
use lurus_identity.Store.{Error, M, ⊤, pure, ◌>>=◌, ◌>>◌, raise_if}
use lurus_identity.Wallet.Repo as Wallets
use lurus_identity.Vip as Vips
use lurus_identity.Account.Repo

-- An account as it is created, before it has an id.
abbrev pub new_account : String → String → String → Account
new_account sub email aff = record {
  id = 0;
  lurus_id = [];
  zitadel_sub = sub;
  email = email;
  phone = "";
  phone_verified = false;
  status = status_active;
  username = "";
  referrer_id = none;
  aff_code = aff;
}

abbrev pub binding : ℕ → String → String → String → OAuthBinding
binding a provider provider_id email = record {
  id = 0;
  account_id = a;
  provider = provider;
  provider_id = provider_id;
  provider_email = email;
}

unfoldable pub bind_oauth : ℕ → String → String → String → M ⊤
bind_oauth a provider provider_id email =
    Repo.upsert_oauth_binding (binding a provider provider_id email)

-- The wallet and the VIP row of a new account.
unfoldable pub bootstrap : Account → M Account
bootstrap a = do Wallets.get_or_create a.id; Vips.get_or_create a.id; pure a

module _ (lower : String → String) where
  -- A new row, and its Lurus id once it has an id.
  unfoldable pub create_numbered : Account → M Account
  create_numbered a = do
    made ← Repo.create lower a
    let a' = record made { lurus_id = generate_lurus_id made.id }
    Repo.save lower a'
    pure a'

  unfoldable pub link_by_email : String → String → String → Option Account → M Account
  unfolding create_numbered bootstrap
  link_by_email sub email aff (some a) = do
    let a' = record a { zitadel_sub = sub }
    Repo.save lower a'
    pure a'
  link_by_email sub email aff none = do a ← create_numbered (new_account sub email aff); bootstrap a

  unfoldable pub login : String → String → String → Option Account → M Account
  unfolding link_by_email
  login sub email aff (some a) = Repo.save lower a >> pure a
  login sub email aff none = do known ← Repo.get_by_email email; link_by_email sub email aff known

  unfoldable pub upsert_by_zitadel_sub : String → String → String → M Account
  unfolding login
  upsert_by_zitadel_sub sub email aff = do
    known ← Repo.get_by_zitadel_sub sub
    login sub email aff known

  unfoldable pub wechat_login : String → String → Option Account → M Account
  unfolding create_numbered bootstrap
  wechat_login wechat_id aff (some a) = pure a
  wechat_login wechat_id aff none = do
    a ←
        create_numbered (
          new_account ("wechat:" +s wechat_id) ("wechat." +s (wechat_id +s "@noreply.lurus.cn"))
            aff)
    Repo.upsert_oauth_binding (binding a.id "wechat" wechat_id "")
    bootstrap a

  unfoldable pub upsert_by_wechat : String → String → M Account
  unfolding wechat_login
  upsert_by_wechat wechat_id aff = do
    raise_if (str_eq wechat_id "") Error.empty_wechat_id
    known ← Repo.get_by_oauth_binding "wechat" wechat_id
    wechat_login wechat_id aff known
