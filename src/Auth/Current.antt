-- ===== src/Auth/Current.antt =====
-- Which keys a token may be checked with.
use lurus_identity.Base.{
  ℕ, ◌≡◌, refl, ap, ◌∙◌, inl, inr, String, Bool, true, false, Option, none, some, List, [], ◌==◌,
  if◌then◌else◌, arith, Bool-cases,
}
use lurus_identity.Text.{Text}
use lurus_identity.Table.{limit}
use lurus_identity.Auth.Keys.{
  PublicKey, Fetch, JwkKey, JwkLib, Found, JwksCache, get_key, lookup, refresh, store_document,
  collect, is_fresh, max_jwks_body_bytes, demand, after_refresh, from_cache,
}

-- The keys that are in use after a call were fetched less than their time to live ago, or are those
-- of the document that was fetched during the call.
pub data Current (lib : JwkLib) (now : ℕ) (f : Fetch) (c c' : JwksCache) : Type 0 where
  kept : c' ≡ c → is_fresh now c.ttl c.fetched_at ≡ true → Current lib now f c c'
  fetched :
      (body : Text) (at : ℕ) (ks : List JwkKey)
      → f ≡ Fetch.response 200 (some body) at
      → lib.read_document (limit max_jwks_body_bytes body) ≡ some ks
      → c' ≡ record c { keys = collect lib [] ks; fetched_at = some at }
      → Current lib now f c c'

module _ (lib : JwkLib) (now : ℕ) (kid : String) (f : Fetch) (c : JwksCache) where
  -- A key that was obtained, and the cache after it.
  abbrev pub Obtained : PublicKey → JwksCache → Type 0
  Obtained key c' = (lookup kid c'.keys ≡ some key) × Current lib now f c c'

  demanded : (o : Option PublicKey) {key : PublicKey} → demand o ≡ Found.found key → o ≡ some key
  demanded none h = cc
  demanded (some k) h = ground arith

  stored :
      (body : Text) (at : ℕ) (ks : Option (List JwkKey)) {key : PublicKey} {c' : JwksCache}
      → f ≡ Fetch.response 200 (some body) at
      → lib.read_document (limit max_jwks_body_bytes body) ≡ ks
      → after_refresh kid (store_document lib at ks c) ≡ (Found.found key, c')
      → Obtained key c'
  unfolding store_document
  stored body at none e r h = cc
  stored body at (some ks) {key} {c'} e r h =
      let same : record c { keys = collect lib [] ks; fetched_at = some at } ≡ c' =
        ap (λ (p : Found PublicKey × JwksCache). p.1) h in
      let known : lookup kid (collect lib [] ks) ≡ some key =
        demanded _ (ap (λ (p : Found PublicKey × JwksCache). p.0) h) in
      (rw (← same) known, Current.fetched body at ks e r (cc))

  refreshed :
      (f' : Fetch) {key : PublicKey} {c' : JwksCache}
      → f ≡ f'
      → after_refresh kid (refresh lib f' c) ≡ (Found.found key, c')
      → Obtained key c'
  unfolding refresh
  refreshed Fetch.unreachable e h = cc
  refreshed (Fetch.response status none at) e h = cc
  refreshed (Fetch.response status (some body) at) {key} {c'} e h =
      elim (Bool-cases (status == 200)) [
        | inl right ↦
            let is_200 : status ≡ 200 = ground arith in
            stored body at (lib.read_document (limit max_jwks_body_bytes body)) (rw (← is_200) e)
              refl (rw right at h)
        | inr wrong ↦ absurd (let h' = rw wrong at h in cc)
      ]

  chosen :
      (b : Bool) (o : Option PublicKey) {key : PublicKey} {c' : JwksCache}
      → is_fresh now c.ttl c.fetched_at ≡ b
      → lookup kid c.keys ≡ o
      → from_cache lib kid f c (if b then o else none) ≡ (Found.found key, c')
      → Obtained key c'
  chosen true (some k) {key} {c'} e l h =
      let same : c ≡ c' = ap (λ (p : Found PublicKey × JwksCache). p.1) h in
      let key_same : some k ≡ some key = cc in (rw (← same) (l ∙ key_same), Current.kept (cc) e)
  chosen true none e l h = refreshed f refl h
  chosen false o e l h = refreshed f refl h

  -- A key is handed out only if it stands in the cache under its id, and the cache is current.
  pub get_key-IsCurrent :
      {key : PublicKey} {c' : JwksCache}
      → get_key lib now kid f c ≡ (Found.found key, c')
      → Obtained key c'
  unfolding get_key
  get_key-IsCurrent h = chosen _ _ refl refl h
