-- ===== src/Account/Blocked.antt =====
-- When no further account can be created.
use lurus_identity.Base.{
  ℕ, ◌<◌, ◌≡◌, refl, String, Bool, true, false, not, ◌&&◌, ◌||◌, Option, none, some, List, arith,
  str_eq, ◌==◌,
}
use lurus_identity.Table.{first}
use lurus_identity.Table.Laws.{first-holds, All, All-first, first-some}
use lurus_identity.Entity.Identity.{Account}
use lurus_identity.Store.{Tables, Db, Error, Result, ok, err, M}
use lurus_identity.Store.Keeps.{Keeps, keeps_rules}
use lurus_identity.Store.Leads.{Leads, Outcome, Leads-Keeps, Leads-bind, Leads-sql, Leads-pure}
use lurus_identity.Account.Repo
use lurus_identity.Account.Repo.{
  rival, has_sub, insert_account, get_by_email, get_by_phone, get_by_username,
}
use lurus_identity.Account.Service.{create_numbered}
use lurus_identity.Account.Frame.{
  refuse_taken-Keeps, check_email-Keeps, check_phone-Keeps, get_by_username-Keeps,
}
use lurus_identity.Account.Registration.{Registrar, RegisterRequest, zitadel_user, register}

-- Some account was stored without a Zitadel user; ids are below the next one.
pub record HasLocal (t : Tables) : Type 0 where
  pub account : Account
  pub found : first (has_sub "") t.accounts ≡ some account
  pub fresh : All (λ (a : Account). a.id < t.next_id) t.accounts

abbrev Never : {A : Type 0} → A → Tables → Type 0
Never a t = ⊥

abbrev Anything : Tables → Type 0
Anything t = Unit

nothing : {A B : Type 0} (m : M B) (a : A) → Leads (Never a) m (λ b. Never b) Anything
nothing m a = record { at = λ s h. absurd h }

refused :
    (a : Account) (t : Tables) (faults : List Bool) {x : Account} (clash : Option Account)
    → clash ≡ some x
    → Outcome
        (λ b. Never b)
        Anything
        (
          (insert_account a clash t).0,
          record { tables = (insert_account a clash t).1; faults = faults },
        )
unfolding insert_account
refused a t faults (some y) e = tt
refused a t faults none e = absurd (cc)

any_second :
    (own p q u v w x : Bool)
    → own ≡ false
    → q ≡ true
    → not own && (p || q || u || v || w || x) ≡ true
any_second own p q u v w x e f = ground (arith, e, f)

taken :
    (lower : String → String) (a x : Account) (n : ℕ)
    → has_sub "" x ≡ true
    → x.id < n
    → a.zitadel_sub ≡ ""
    → rival lower (record a { id = n }) x ≡ true
taken lower a x n h l e =
    let same : str_eq x.zitadel_sub a.zitadel_sub ≡ true = rw e h in
    any_second (x.id == n) _ _ _ _ _ _ (ground (arith, l)) same

create-leads :
    (lower : String → String) (a : Account)
    → a.zitadel_sub ≡ ""
    → Leads HasLocal (Repo.create lower a) (λ b. Never b) Anything
unfolding Repo.create
create-leads lower a e =
    Leads-sql _
      (λ t faults h.
        let own = first-holds (has_sub "") t.accounts h.found in
        let low =
          All-first (λ (x : Account). x.id < t.next_id) (has_sub "") t.accounts h.fresh h.found in
        let (x, found) =
          first-some (has_sub "") (rival lower (record a { id = t.next_id })) t.accounts h.found
            (taken lower a h.account t.next_id own low e) in
        refused (record a { id = t.next_id }) t faults _ found)
      (λ t h. tt)

create_numbered-leads :
    (lower : String → String) (a : Account)
    → a.zitadel_sub ≡ ""
    → Leads HasLocal (create_numbered lower a) (λ b. Never b) Anything
unfolding create_numbered
create_numbered-leads lower a e = Leads-bind _ _ (create-leads lower a e) (λ made. nothing _ made)

zitadel_user-leads :
    (r : Registrar) (o : Option (String → String → String → Option String)) (u p e : String)
    → o ≡ none
    → Leads HasLocal (zitadel_user r o u p e) (λ sub t. HasLocal t × (sub ≡ "")) Anything
unfolding zitadel_user
zitadel_user-leads r none u p e h = Leads-pure "" (λ t k. (k, refl))
zitadel_user-leads r (some f) u p e h = absurd (cc)

kept : {A : Type 0} (m : M A) → Keeps HasLocal m → Leads HasLocal m (λ _. HasLocal) Anything
kept m k = Leads-Keeps m k (λ t h. tt)

register-leads :
    (r : Registrar) (now : ℕ) (aff : String) (req : RegisterRequest)
    → r.create_user ≡ none
    → Leads HasLocal (register r now aff req) (λ b. Never b) Anything
unfolding register
register-leads r now aff req local = Leads-bind _ _ (kept _ (search keeps_rules)) λ _.
    Leads-bind _ _ (kept _ (search keeps_rules)) λ _.
      Leads-bind _ _ (kept _ (get_by_username-Keeps r.lower _)) λ known.
        Leads-bind _ _ (kept _ (refuse_taken-Keeps known _)) λ _.
          Leads-bind _ _ (kept _ (check_email-Keeps r req.email)) λ email.
            Leads-bind _ _ (kept _ (check_phone-Keeps r req.phone)) λ given.
              Leads-bind _ _ (zitadel_user-leads r r.create_user _ req.password email local) λ sub.
                Leads-bind _ _
                  (record { at = λ s h. (create_numbered-leads r.lower _ h.1).at s h.0 })
                  (λ a. nothing _ a)

failed :
    {A : Type 0} (out : Result A × Db)
    → Outcome (λ a. Never a) Anything out
    → (e : Error) × (out.0 ≡ err e)
failed (ok a, s) h = absurd h
failed (err e, s) h = (e, refl)

-- Without Zitadel, once an account was stored without a Zitadel user, every registration is refused,
-- whatever its user name, email and phone.
pub register-refused :
    (r : Registrar) (now : ℕ) (aff : String) (req : RegisterRequest) (s : Db)
    → r.create_user ≡ none
    → HasLocal s.tables
    → (e : Error) × ((register r now aff req s).0 ≡ err e)
register-refused r now aff req s local h =
    failed (register r now aff req s) ((register-leads r now aff req local).at s h)
