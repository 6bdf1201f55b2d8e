-- ===== src/Account/Repo.antt =====
-- internal/adapter/repo/account.go, with the unique indices of migrations/001_identity_schema.sql and
-- migrations/012_auth_simplify.sql. A text that was not set is written as "". `lower` is the database's.
use lurus_identity.Base.{
  ℕ, suc, String, Bool, not, ◌&&◌, ◌||◌, Option, none, some, List, str_eq, ◌==◌,
}
use lurus_identity.Text.{equal}
use lurus_identity.Table.{first, update, select, insert}
use lurus_identity.Entity.Identity.{Account, OAuthBinding}
use lurus_identity.Store.{Tables, Error, Result, ok, err, M, ⊤, pure, ◌>>=◌, sql, query}
use lurus_identity.Referral.{get_account}

-- Equal, and not empty: the condition of a partial index.
abbrev pub both : String → String → Bool
both x y = str_eq x y && not (str_eq x "")

abbrev pub has_id : ℕ → Account → Bool
has_id i a = a.id == i

abbrev pub has_sub : String → Account → Bool
has_sub z a = str_eq a.zitadel_sub z

abbrev pub has_email : String → Account → Bool
has_email e a = str_eq a.email e

abbrev pub has_phone : String → Account → Bool
has_phone p a = str_eq a.phone p && not (str_eq a.phone "")

abbrev pub has_aff_code : String → Account → Bool
has_aff_code c a = str_eq a.aff_code c

abbrev pub bound_to : String → String → OAuthBinding → Bool
bound_to p i b = str_eq b.provider p && str_eq b.provider_id i

unfoldable pub insert_account : Account → Option Account → Tables → Result Account × Tables
insert_account a (some _) t = (err Error.unique_violation, t)
insert_account a none t =
    (ok a, record t { next_id = suc t.next_id; accounts = insert a t.accounts })

unfoldable pub save_account : Account → Option Account → Tables → Result ⊤ × Tables
save_account a (some _) t = (err Error.unique_violation, t)
save_account a none t = (ok tt, record t { accounts = update (has_id a.id) (λ _. a) t.accounts })

module _ (lower : String → String) where
  abbrev pub has_username : String → Account → Bool
  has_username u a = str_eq (lower a.username) (lower u)

  -- A row of another id that an index holds against `a`.
  abbrev pub rival : Account → Account → Bool
  rival a x =
      not (x.id == a.id)
      && (equal x.lurus_id a.lurus_id
          || has_sub a.zitadel_sub x
          || has_aff_code a.aff_code x
          || both x.email a.email
          || both x.phone a.phone
          || (has_username a.username x && not (str_eq x.username "")))

  unfoldable pub create : Account → M Account
  unfolding insert_account
  create a =
      sql λ t.
        let a' = record a { id = t.next_id } in insert_account a' (first (rival a') t.accounts) t

  -- `Save` of a row that was read or created before.
  unfoldable pub save : Account → M ⊤
  unfolding save_account
  save a = sql (λ t. save_account a (first (rival a) t.accounts) t)

  unfoldable pub get_by_username : String → M (Option Account)
  get_by_username u = query (λ t. first (has_username u) t.accounts)

unfoldable pub get_by_email : String → M (Option Account)
get_by_email e = query (λ t. first (has_email e) t.accounts)

unfoldable pub get_by_zitadel_sub : String → M (Option Account)
get_by_zitadel_sub z = query (λ t. first (has_sub z) t.accounts)

unfoldable pub get_by_aff_code : String → M (Option Account)
get_by_aff_code c = query (λ t. first (has_aff_code c) t.accounts)

unfoldable pub get_by_phone : String → M (Option Account)
get_by_phone p = query (λ t. first (has_phone p) t.accounts)

-- `Assign(…).FirstOrCreate(b)`
unfoldable pub assign_binding : OAuthBinding → Option OAuthBinding → Tables → Result ⊤ × Tables
assign_binding b (some x) t = (
  ok tt,
  record t {
    bindings =
        update (λ y. y.id == x.id)
          (λ y. record y { account_id = b.account_id; provider_email = b.provider_email })
          t.bindings;
  },
)
assign_binding b none t = (
  ok tt,
  record t { next_id = suc t.next_id; bindings = insert (record b { id = t.next_id }) t.bindings },
)

unfoldable pub upsert_oauth_binding : OAuthBinding → M ⊤
unfolding assign_binding
upsert_oauth_binding b =
    sql (λ t. assign_binding b (first (bound_to b.provider b.provider_id) t.bindings) t)

unfoldable pub owner_of : Option OAuthBinding → M (Option Account)
owner_of none = pure none
owner_of (some b) = get_account b.account_id

unfoldable pub get_by_oauth_binding : String → String → M (Option Account)
unfolding owner_of
get_by_oauth_binding p i = do b ← query (λ t. first (bound_to p i) t.bindings); owner_of b

unfoldable pub get_oauth_bindings : ℕ → M (List OAuthBinding)
get_oauth_bindings a = query (λ t. select (λ b. b.account_id == a) t.bindings)
