-- ===== src/Organization/Owners.antt =====
-- Organizations keep an owner when members are removed, and may lose the last one when members are
-- added again.
use lurus_identity.Base.{
  ℕ, ◌+◌, ◌≤◌, ◌≡◌, refl, inl, inr, Bool, true, false, ◌&&◌, not, Option, none, some, List, [], ◌∷◌,
  arith, Bool-cases, ◌==◌,
}
use lurus_identity.Table.{first, select, count}
use lurus_identity.Entity.Organization.{OrgMember}
use lurus_identity.Store.{Tables, pure}
use lurus_identity.Store.Keeps.{Keeps, Keeps-query}
use lurus_identity.Store.Leads.{
  Leads, Leads-Keeps, Keeps-Leads, Leads-sql, Leads-raise_if, Leads-bind, Leads-must, Found,
}
use lurus_identity.Organization.Repo
use lurus_identity.Organization.Repo.{is_member}
use lurus_identity.Organization.Service
use lurus_identity.Organization.Service.{is_owner, check_last_owner}

abbrev pub owner_of : ℕ → OrgMember → Bool
owner_of org m = m.org_id == org && is_owner m

abbrev pub owners : ℕ → List OrgMember → ℕ
owners org ms = count (owner_of org) ms

-- The organization has an owner, and no account has two rows in it.
pub record IsOwned (org : ℕ) (t : Tables) : Type 0 where
  pub owned : 1 ≤ owners org t.members
  pub keyed : (a : ℕ) → count (is_member org a) t.members ≤ 1

-- The owners among the rows of one account.
abbrev both : ℕ → ℕ → OrgMember → Bool
both org a m = owner_of org m && is_member org a m

count-select-not :
    (org a : ℕ) (ms : List OrgMember)
    → owners org (select (λ m. not (is_member org a m)) ms) + count (both org a) ms ≡ owners org ms
unfolding select count
count-select-not org a [] = refl
count-select-not org a (m ∷ ms) = ground (arith, count-select-not org a ms)

count-both_le :
    (org a : ℕ) (ms : List OrgMember) → count (both org a) ms ≤ count (is_member org a) ms
unfolding count
count-both_le org a [] = omega arith
count-both_le org a (m ∷ ms) = ground (arith, count-both_le org a ms)

count-select_le :
    (org a b : ℕ) (ms : List OrgMember)
    → count (is_member org b) (select (λ m. not (is_member org a m)) ms)
      ≤ count (is_member org b) ms
unfolding select count
count-select_le org a b [] = omega arith
count-select_le org a b (m ∷ ms) = ground (arith, count-select_le org a b ms)

count-select_org :
    (org : ℕ) (ms : List OrgMember)
    → count is_owner (select (λ (m : OrgMember). m.org_id == org) ms) ≡ owners org ms
unfolding select count
count-select_org org [] = refl
count-select_org org (m ∷ ms) = ground (arith, count-select_org org ms)

none_both :
    (org a : ℕ) (ms : List OrgMember) → count (is_member org a) ms ≡ 0 → count (both org a) ms ≡ 0
none_both org a ms e = omega (arith, count-both_le org a ms)

-- The one row of an account is no owner.
count-both_zero :
    (org a : ℕ) (ms : List OrgMember) {m : OrgMember}
    → first (is_member org a) ms ≡ some m
    → is_owner m ≡ false
    → count (is_member org a) ms ≤ 1
    → count (both org a) ms ≡ 0
unfolding first count
count-both_zero org a [] e f h = cc
count-both_zero org a (x ∷ ms) {m} e f h = elim (Bool-cases (is_member org a x)) [
  | inl y ↦
      let same : some x ≡ some m = rw y at e in
      let rest : count (is_member org a) ms ≡ 0 = ground arith in
      ground (arith, none_both org a ms rest)
  | inr n ↦
      let later : first (is_member org a) ms ≡ some m = rw n at e in
      ground (arith, count-both_zero org a ms later f)
]

-- Removing the account leaves an owner.
IsRemovable : ℕ → ℕ → Tables → Type 0
IsRemovable org a t = IsOwned org t × (count (both org a) t.members + 1 ≤ owners org t.members)

removed :
    (org a : ℕ)
    → Leads (IsRemovable org a) (Repo.remove_member org a) (λ _. IsOwned org) (IsOwned org)
unfolding Repo.remove_member IsRemovable
removed org a =
    Leads-sql _
      (λ t faults h. record {
        owned = omega (arith, count-select-not org a t.members, h.1);
        keyed = λ b. omega (arith, count-select_le org a b t.members, h.0.keyed b);
      })
      (λ t h. h.0)

-- The target's row, as it was read.
IsRead : ℕ → ℕ → OrgMember → Tables → Type 0
IsRead org a m t = IsOwned org t × (first (is_member org a) t.members ≡ some m)

checked_other :
    (org a : ℕ) (m : OrgMember)
    → is_owner m ≡ false
    → Leads (IsRead org a m) (check_last_owner org false) (λ _. IsRemovable org a) (IsOwned org)
unfolding check_last_owner pure IsRead IsRemovable
checked_other org a m f = record {
  at = λ s h.
      (h.0, omega (arith, h.0.owned, count-both_zero org a s.tables.members h.1 f (h.0.keyed a)));
}

checked_owner :
    (org a : ℕ) (m : OrgMember)
    → Leads (IsRead org a m) (check_last_owner org true) (λ _. IsRemovable org a) (IsOwned org)
unfolding check_last_owner IsRead IsRemovable Repo.list_members
checked_owner org a m =
    Leads-bind _ _
      (Leads-sql {Q = λ ms t. IsOwned org t × (count is_owner ms ≡ owners org t.members)} _
        (λ t faults h. (h.0, count-select_org org t.members)) (λ t h. h.0))
      (λ ms.
        Leads-raise_if _ _
          (λ t h f. (h.0, ground (arith, h.1, h.0.keyed a, count-both_le org a t.members)))
          (λ t h f. h.0))

checked :
    (org a : ℕ) (m : OrgMember) (b : Bool)
    → is_owner m ≡ b
    → Leads (IsRead org a m) (check_last_owner org b) (λ _. IsRemovable org a) (IsOwned org)
checked org a m true e = checked_owner org a m
checked org a m false e = checked_other org a m e

IsRead-target :
    (org a : ℕ)
    → Leads (IsOwned org) (Repo.get_member org a) (Found (IsRead org a) (IsOwned org)) (IsOwned org)
unfolding Repo.get_member IsRead
IsRead-target org a =
    Leads-sql _ (λ t faults h. go t h (first (is_member org a) t.members) refl) (λ t h. h)
  where
    go :
        (t : Tables)
        → IsOwned org t
        → (o : Option OrgMember) → first (is_member org a) t.members ≡ o
        → Found
            (λ m u. IsOwned org u × (first (is_member org a) u.members ≡ some m))
            (IsOwned org)
            o
            t
    go t h none e = h
    go t h (some m) e = (h, e)

-- Whoever removes whom, and whichever statements fail, an organization that has an owner, and where no
-- account has two rows, has an owner afterwards.
pub remove_member-IsOwned :
    (org caller target : ℕ) → Keeps (IsOwned org) (Service.remove_member org caller target)
unfolding Service.remove_member Repo.get_member
remove_member-IsOwned org caller target = Keeps-Leads _ (
    Leads-bind _ _ (Leads-Keeps _ (Keeps-query _) (λ t h. h)) λ c.
      Leads-bind _ _ (Leads-raise_if _ _ (λ t h f. h) (λ t h f. h)) λ _.
        Leads-bind _ _ (Leads-must _ _ (IsRead-target org target))
          λ m. Leads-bind _ _ (checked org target m (is_owner m) refl) λ _. removed org target)
