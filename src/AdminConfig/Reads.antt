-- ===== src/AdminConfig/Reads.antt =====
-- The copy of the settings after it was loaded, and after a key was read.
use lurus_identity.Base.{
  ◌≡◌, refl, sym, ap, ◌∙◌, inl, inr, String, Option, none, some, List, [], ◌∷◌, str_eq, eq_iff,
  if◌then◌else◌, Bool-cases,
}
use lurus_identity.Table.{first}
use lurus_identity.Table.Laws.{first-holds}
use lurus_identity.Entity.Catalog.{AdminSetting}
use lurus_identity.Store.{Tables}
use lurus_identity.Store.Leads.{Leads, Leads-bind, Leads-pure, Leads-query}
use lurus_identity.AdminConfig.{
  has_key, get_all, ConfigCache, store, cached, store_all, load, reloaded, get_known, get,
}
use lurus_identity.AdminConfig.Synced.{IsKeyed, Synced, first-store}

abbrev or_else : Option AdminSetting → Option AdminSetting → Option AdminSetting
or_else (some x) o = some x
or_else none o = o

first-store_all :
    (k : String) (rows : List AdminSetting) (c : ConfigCache)
    → IsKeyed rows
    → first (has_key k) (store_all rows c) ≡ or_else (first (has_key k) rows) (first (has_key k) c)
unfolding first store_all
first-store_all k [] c h = refl
first-store_all k (x ∷ xs) c h =
    first-store_all k xs (store x c) h.1 ∙ elim (Bool-cases (str_eq x.key k)) [
      | inl same ↦
          let key : x.key ≡ k = (eq_iff x.key k).0 same in
          let gone : first (has_key k) xs ≡ none = rw (← key) h.0 in
          rw gone (first-store k x c ∙ rw same refl)
      | inr other ↦ rw (first-store k x c) (rw other refl)
    ]

loaded-Synced :
    (rows : List AdminSetting) (t : Tables)
    → IsKeyed t.settings
    → t.settings ≡ rows
    → Synced (store_all rows []) t
unfolding first
loaded-Synced rows t h e = record {
  keyed = h;
  agrees = λ k. first-store_all k rows [] (rw (← e) h) ∙ rw e (or_none (first (has_key k) rows));
}
  where
    or_none : (o : Option AdminSetting) → or_else o none ≡ o
    or_none none = refl
    or_none (some x) = refl

pub load-Leads :
    Leads (λ t. IsKeyed t.settings) (load []) (λ c t. Synced c t) (λ t. IsKeyed t.settings)
unfolding load get_all
load-Leads =
    Leads-bind _ _ (Leads-query (λ t. t.settings) (λ t h. h))
      (λ rows. Leads-pure _ (λ t h. loaded-Synced rows t h.0 h.1))

reloaded-Synced :
    (k : String) (c : ConfigCache) (o : Option AdminSetting) (t : Tables)
    → Synced c t
    → first (has_key k) t.settings ≡ o
    → Synced (reloaded o c).1 t
reloaded-Synced k c none t h e = h
reloaded-Synced k c (some st) t h e =
    let key : st.key ≡ k = (eq_iff st.key k).0 (first-holds (has_key k) t.settings e) in
    record { keyed = h.keyed; agrees = λ j. first-store j st c ∙ by_key key j }
  where
    by_key :
        st.key ≡ k
        → (j : String)
        → (if str_eq st.key j then some st else first (has_key j) c) ≡ first (has_key j) t.settings
    by_key key j = elim (Bool-cases (str_eq st.key j)) [
      | inr other ↦ rw other (h.agrees j)
      | inl same ↦
          let k_j : k ≡ j = sym key ∙ (eq_iff st.key j).0 same in rw same (rw (← k_j) (sym e))
    ]

get_known-Leads :
    (k : String) (o : Option AdminSetting) (c : ConfigCache)
    → Leads (Synced c) (get_known k o c) (λ r t. Synced r.1 t) (Synced c)
unfolding get_all
get_known-Leads k (some st) c = Leads-pure _ (λ t h. h)
get_known-Leads k none c = Leads-bind _ _ (Leads-query (λ t. t.settings) (λ t h. h)) (λ rows.
    Leads-pure _ (λ t h.
      reloaded-Synced k c (first (has_key k) rows) t h.0 (ap (λ r. first (has_key k) r) h.1)))

pub get-Leads :
    (k : String) (c : ConfigCache) → Leads (Synced c) (get k c) (λ r t. Synced r.1 t) (Synced c)
unfolding get
get-Leads k c = get_known-Leads k (cached k c) c
