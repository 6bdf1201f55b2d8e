-- ===== src/AdminConfig/Synced.antt =====
-- The copy of the settings in memory and the table in the database.
use lurus_identity.Base.{
  ◌≡◌, refl, sym, ◌∙◌, inl, inr, String, false, Option, none, some, List, [], ◌∷◌, str_eq, eq_iff,
  if◌then◌else◌, arith, Bool-cases,
}
use lurus_identity.Table.{first, update, insert}
use lurus_identity.Table.Laws.{first-update, first-insert}
use lurus_identity.Entity.Catalog.{AdminSetting}
use lurus_identity.Store.{Tables}
use lurus_identity.Store.Leads.{Leads, Leads-bind, Leads-sql, Leads-pure}
use lurus_identity.AdminConfig.{
  has_key, assigned, new_setting, upsert_setting, set_row, ConfigCache, store, cached, secret_in,
  refreshed, set,
}

-- The row of a key after it was set, given the row before.
abbrev pub row_after : String → String → String → Option AdminSetting → AdminSetting
row_after k value by before = record (new_setting k value by) { is_secret = secret_in before }

-- The primary key of the table.
abbrev pub IsKeyed : List AdminSetting → Type 0
IsKeyed [] = Unit
IsKeyed (x ∷ xs) = (first (has_key x.key) xs ≡ none) × IsKeyed xs

pub first-store :
    (k : String) (st : AdminSetting) (c : ConfigCache)
    → first (has_key k) (store st c) ≡ (if str_eq st.key k then some st else first (has_key k) c)
unfolding first store
first-store k st [] = refl
first-store k st (x ∷ xs) =
    ground (arith, eq_iff x.key st.key, eq_iff x.key k, eq_iff st.key k, first-store k st xs)

first-inserted :
    (k j value by : String) (rows : List AdminSetting)
    → first (has_key k) rows ≡ none
    → first (has_key j) (insert (new_setting k value by) rows)
      ≡ (if str_eq k j then some (row_after k value by none) else first (has_key j) rows)
unfolding first
first-inserted k j value by [] e = refl
first-inserted k j value by (x ∷ xs) e =
    ground (arith, eq_iff x.key k, eq_iff x.key j, eq_iff k j, first-inserted k j value by xs)

first-other :
    (k j value by : String) (rows : List AdminSetting)
    → str_eq k j ≡ false
    → first (has_key j) (update (has_key k) (assigned value by) rows) ≡ first (has_key j) rows
unfolding first update
first-other k j value by [] n = refl
first-other k j value by (x ∷ xs) n =
    ground (arith, eq_iff x.key k, eq_iff x.key j, eq_iff k j, first-other k j value by xs n)

first-same :
    (k value by : String) (rows : List AdminSetting) {old : AdminSetting}
    → first (has_key k) rows ≡ some old
    → first (has_key k) (update (has_key k) (assigned value by) rows)
      ≡ some (row_after k value by (some old))
unfolding first update
first-same k value by [] e = absurd (cc)
first-same k value by (x ∷ xs) {old} e = elim (Bool-cases (str_eq x.key k)) [
  | inr other ↦ rw other (rw other (first-same k value by xs (rw other at e)))
  | inl same ↦
      let found : x ≡ old = (let e' = rw same at e in ground arith) in
      let key : x.key ≡ k = (eq_iff x.key k).0 same in
      rw same (rw same (rw (← key) (rw (← found) refl)))
]

first-upsert :
    (k j value by : String) (rows : List AdminSetting) (before : Option AdminSetting)
    → first (has_key k) rows ≡ before
    → first (has_key j) (upsert_setting k value by before rows)
      ≡ (if str_eq k j then some (row_after k value by before) else first (has_key j) rows)
unfolding upsert_setting
first-upsert k j value by rows none e = first-inserted k j value by rows e
first-upsert k j value by rows (some old) e = elim (Bool-cases (str_eq k j)) [
  | inr other ↦ rw other (first-other k j value by rows other)
  | inl same ↦
      let key : k ≡ j = (eq_iff k j).0 same in rw same (rw (← key) (first-same k value by rows e))
]

absent-inserted :
    (st : AdminSetting) (k : String) (rows : List AdminSetting)
    → first (has_key k) rows ≡ none
    → str_eq st.key k ≡ false
    → first (has_key k) (insert st rows) ≡ none
absent-inserted st k rows e n = first-insert (has_key k) st rows ∙ rw e (rw n refl)

insert-IsKeyed :
    (st : AdminSetting) (rows : List AdminSetting)
    → first (has_key st.key) rows ≡ none
    → IsKeyed rows
    → IsKeyed (insert st rows)
unfolding first
insert-IsKeyed st [] e k = (refl, tt)
insert-IsKeyed st (x ∷ xs) e k = elim (Bool-cases (str_eq x.key st.key)) [
  | inl same ↦ absurd (let e' = rw same at e in cc)
  | inr other ↦ (
    absent-inserted st x.key xs k.0 (ground (arith, eq_iff x.key st.key, eq_iff st.key x.key)),
    insert-IsKeyed st xs (rw other at e) k.1,
  )
]

absent-updated :
    (k value by j : String) (rows : List AdminSetting)
    → first (has_key j) rows ≡ none
    → first (has_key j) (update (has_key k) (assigned value by) rows) ≡ none
absent-updated k value by j rows e =
    first-update (has_key j) (has_key k) (assigned value by) rows (λ x. refl) ∙ rw e refl

update-IsKeyed :
    (k value by : String) (rows : List AdminSetting)
    → IsKeyed rows
    → IsKeyed (update (has_key k) (assigned value by) rows)
unfolding update
update-IsKeyed k value by [] h = tt
update-IsKeyed k value by (x ∷ xs) h = elim (Bool-cases (str_eq x.key k)) [
  | inl same ↦ rw same (absent-updated k value by x.key xs h.0, update-IsKeyed k value by xs h.1)
  | inr other ↦ rw other (absent-updated k value by x.key xs h.0, update-IsKeyed k value by xs h.1)
]

upsert-IsKeyed :
    (k value by : String) (rows : List AdminSetting) (before : Option AdminSetting)
    → first (has_key k) rows ≡ before
    → IsKeyed rows
    → IsKeyed (upsert_setting k value by before rows)
unfolding upsert_setting
upsert-IsKeyed k value by rows none e h = insert-IsKeyed (new_setting k value by) rows e h
upsert-IsKeyed k value by rows (some old) e h = update-IsKeyed k value by rows h

-- The copy holds exactly what the table does.
pub record Synced (c : ConfigCache) (t : Tables) : Type 0 where
  pub keyed : IsKeyed t.settings
  pub agrees : (k : String) → first (has_key k) c ≡ first (has_key k) t.settings

abbrev pub after_set : String → String → String → Tables → Tables
after_set k value by t = record t {
  settings = upsert_setting k value by (first (has_key k) t.settings) t.settings;
}

-- The table after `set`, with the copy refreshed.
refreshed-Synced :
    (k value by : String) (c : ConfigCache) (t : Tables)
    → Synced c t
    → Synced (refreshed k value by c) (after_set k value by t)
unfolding refreshed cached
refreshed-Synced k value by c t h = record {
  keyed = upsert-IsKeyed k value by t.settings _ refl h.keyed;
  agrees = λ j.
      first-store j _ c
      ∙ rw (h.agrees k) (rw (h.agrees j) (sym (first-upsert k j value by t.settings _ refl)));
}

pub set-Leads :
    (k value by : String) (c : ConfigCache)
    → Leads (Synced c) (set k value by c) (λ c' t. Synced c' t) (Synced c)
unfolding set set_row
set-Leads k value by c =
    Leads-bind _ _
      (Leads-sql {Q = λ _ t. Synced (refreshed k value by c) t} _
        (λ t faults h. refreshed-Synced k value by c t h) (λ t h. h))
      (λ u. Leads-pure _ (λ t h. h))
