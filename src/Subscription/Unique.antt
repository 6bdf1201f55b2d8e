-- ===== src/Subscription/Unique.antt =====
-- An account has at most one live subscription of a product.
use lurus_identity.Base.{
  ℕ, suc, ◌≤◌, ◌≡◌, refl, inl, inr, String, Bool, true, false, Option, none, List, arith,
  Bool-cases, Option-cases, eq_iff,
}
use lurus_identity.Table.{update, count, insert}
use lurus_identity.Table.Count.{count-insert, count-update_where, count_cover, count-none}
use lurus_identity.Entity.Identity.{Subscription, is_live}
use lurus_identity.Store.{Tables}
use lurus_identity.Store.Keeps.{Keeps, Keeps-sql}
use lurus_identity.Subscription.Repo.{
  has_id, live_of, rival, conflict, numbered, insert_sub, create, save_sub, save, set_renewal,
  update_renewal_state,
}

-- Ids are distinct and below the next one, and no two rows of an account and a product are live.
pub record AreUnique (t : Tables) : Type 0 where
  pub ids : (i : ℕ) → count (has_id i) t.subscriptions ≤ 1
  pub fresh : (i : ℕ) → t.next_id ≤ i → count (has_id i) t.subscriptions ≡ 0
  pub live : (a : ℕ) (p : String) → count (live_of a p) t.subscriptions ≤ 1

-- Calls that take ids for other tables leave it.
pub AreUnique-same :
    {t u : Tables}
    → u.subscriptions ≡ t.subscriptions
    → t.next_id ≤ u.next_id
    → AreUnique t
    → AreUnique u
AreUnique-same e n h = record {
  ids = λ i. rw e (h.ids i);
  fresh = λ i k. rw e (h.fresh i (omega (arith, n, k)));
  live = λ a p. rw e (h.live a p);
}

-- A live row of the account and product of `s` is `s`'s own or one that the index holds against it.
pub own_or_rival :
    (s x : Subscription) (a : ℕ) (p : String)
    → live_of a p s ≡ true
    → live_of a p x ≡ true
    → has_id s.id x ≡ false
    → rival s x ≡ true
own_or_rival s x a p e f g =
    ground (arith, eq_iff s.product_id p, eq_iff x.product_id p, eq_iff x.product_id s.product_id)

pub no_rivals :
    (s : Subscription) (a : ℕ) (p : String) (ss : List Subscription)
    → live_of a p s ≡ true
    → conflict s ss ≡ none
    → count (rival s) ss ≡ 0
no_rivals s a p ss e c =
    count-none (rival s) ss (let l : is_live s.status ≡ true = ground arith in rw l at c)

inserted :
    (s : Subscription) (t : Tables)
    → s.id ≡ t.next_id
    → conflict s t.subscriptions ≡ none
    → AreUnique t
    → AreUnique (record t { next_id = suc t.next_id; subscriptions = insert s t.subscriptions })
inserted s t e c h = record {
  ids = λ i. ground (arith, count-insert (has_id i) s t.subscriptions, h.ids i, h.fresh i);
  fresh = λ i k. ground (arith, count-insert (has_id i) s t.subscriptions, h.fresh i);
  live = λ a p. elim (Bool-cases (live_of a p s)) [
    | inl l ↦ omega (
      arith,
      rw l at (count-insert (live_of a p) s t.subscriptions),
      count_cover (live_of a p) (has_id s.id) (rival s) t.subscriptions
          (λ x. own_or_rival s x a p l),
      no_rivals s a p t.subscriptions l c,
      h.fresh s.id (omega (arith, e)),
    )
    | inr l ↦ omega (arith, rw l at (count-insert (live_of a p) s t.subscriptions), h.live a p)
  ];
}

saved :
    (s : Subscription) (t : Tables)
    → conflict s t.subscriptions ≡ none
    → AreUnique t
    → AreUnique (record t { subscriptions = update (has_id s.id) (λ _. s) t.subscriptions })
saved s t c h = record {
  ids = λ i. omega (arith, same i, h.ids i);
  fresh = λ i k. omega (arith, same i, h.fresh i k);
  live = λ a p. elim (Bool-cases (live_of a p s)) [
    | inl l ↦ omega (
      arith,
      count_cover (live_of a p) (has_id s.id) (rival s) u (λ x. own_or_rival s x a p l),
      count-update_where (rival s) (has_id s.id) (λ _. s) t.subscriptions (λ x e f. ground arith),
      no_rivals s a p t.subscriptions l c,
      same s.id,
      h.ids s.id,
    )
    | inr l ↦ omega (
      arith,
      count-update_where (live_of a p) (has_id s.id) (λ _. s) t.subscriptions
          (λ x e f. ground arith),
      h.live a p,
    )
  ];
}
  where
    u : List Subscription
    u = update (has_id s.id) (λ _. s) t.subscriptions

    same : (i : ℕ) → count (has_id i) u ≤ count (has_id i) t.subscriptions
    same i =
        count-update_where (has_id i) (has_id s.id) (λ _. s) t.subscriptions (λ x e f. ground arith)

insert_sub-AreUnique :
    (s : Subscription) (t : Tables)
    → s.id ≡ t.next_id
    → AreUnique t
    → AreUnique (insert_sub s (conflict s t.subscriptions) t).1
unfolding insert_sub
insert_sub-AreUnique s t e h = elim (Option-cases (conflict s t.subscriptions)) [
  | inl c ↦ rw c (inserted s t e c h)
  | inr (x, c) ↦ rw c h
]

save_sub-AreUnique :
    (s : Subscription) (t : Tables)
    → AreUnique t
    → AreUnique (save_sub s (conflict s t.subscriptions) t).1
unfolding save_sub
save_sub-AreUnique s t h = elim (Option-cases (conflict s t.subscriptions)) [
  | inl c ↦ rw c (saved s t c h)
  | inr (x, c) ↦ rw c h
]

pub create-AreUnique : (s : Subscription) → Keeps AreUnique (create s)
unfolding create
create-AreUnique s = Keeps-sql _ (λ t h. insert_sub-AreUnique (numbered t.next_id s) t refl h)

pub save-AreUnique : (s : Subscription) → Keeps AreUnique (save s)
unfolding save
save-AreUnique s = Keeps-sql _ (λ t h. save_sub-AreUnique s t h)

pub update_renewal_state-AreUnique :
    (i n : ℕ) (next : Option ℕ) → Keeps AreUnique (update_renewal_state i n next)
unfolding update_renewal_state
update_renewal_state-AreUnique i n next = Keeps-sql _ (λ t h. record {
  ids = λ j. omega (arith, same t (has_id j) (λ x e. e), h.ids j);
  fresh = λ j k. omega (arith, same t (has_id j) (λ x e. e), h.fresh j k);
  live = λ a p. omega (arith, same t (live_of a p) (λ x e. e), h.live a p);
})
  where
    same :
        (t : Tables) (p : Subscription → Bool)
        → ((x : Subscription) → p (set_renewal n next x) ≡ true → p x ≡ true)
        → count p (update (has_id i) (set_renewal n next) t.subscriptions) ≤ count p t.subscriptions
    same t p k = count-update_where p (has_id i) (set_renewal n next) t.subscriptions (λ x e. k x)
