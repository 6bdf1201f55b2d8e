-- ===== src/Store/Leads.antt =====
-- What a call establishes, for the places where an invariant is broken and mended between two
-- statements: from `P`, a success leads to `Q` of its result and a failure to `R`.
use lurus_identity.Base.{◌≡◌, refl, Bool, true, false, Option, none, some, List}
use lurus_identity.Store.{
  pure, require, must, try, ignore, Tables, Db, Error, Result, ok, err, M, ⊤, ◌>>=◌, follow,
  raise_if, draw, answer, sql, query, finish, transaction,
}
use lurus_identity.Store.Keeps.{Keeps}

abbrev pub Outcome :
    {A : Type 0} → (A → Tables → Type 0) → (Tables → Type 0) → Result A × Db → Type 0
Outcome Q R (ok a, s) = Q a s.tables
Outcome Q R (err e, s) = R s.tables

pub record Leads {A : Type 0} (P : Tables → Type 0) (m : M A) (Q : A → Tables → Type 0)
    (R : Tables → Type 0) : Type 0 where
  pub at : (s : Db) → P s.tables → Outcome Q R (m s)

module _ {A : Type 0} {P R : Tables → Type 0} where
  same-Outcome :
      (weaken : (t : Tables) → P t → R t) (out : Result A × Db)
      → P out.1.tables
      → Outcome (λ (_ : A). P) R out
  same-Outcome weaken (ok a, s) h = h
  same-Outcome weaken (err e, s) h = weaken s.tables h

  -- A call that keeps `P`.
  pub Leads-Keeps : (m : M A) → Keeps P m → ((t : Tables) → P t → R t) → Leads P m (λ _. P) R
  Leads-Keeps m k weaken = record { at = λ s h. same-Outcome weaken (m s) (k.at s h) }

module _ {A : Type 0} where
  same_tables :
      (P : Tables → Type 0) (out : Result A × Db) → Outcome (λ (_ : A). P) P out → P out.1.tables
  same_tables P (ok a, s) h = h
  same_tables P (err e, s) h = h

module _ {A : Type 0} {P : Tables → Type 0} where
  pub Keeps-Leads : (m : M A) → Leads P m (λ _. P) P → Keeps P m
  Keeps-Leads m k = record { at = λ s h. same_tables P (m s) (k.at s h) }

module _ {A : Type 0} (P R : Tables → Type 0) (Q : A → Tables → Type 0) where
  answered :
      (weaken : (t : Tables) → P t → R t) (failed : Bool) (rest : List Bool)
      (out : Result A × Tables) (s : Db)
      → P s.tables
      → Outcome Q R (out.0, record { tables = out.1; faults = rest })
      → Outcome Q R (answer failed rest out s)
  unfolding answer
  answered weaken true rest out s h k = weaken s.tables h
  answered weaken false rest out s h k = k

  finished :
      (weaken : (t : Tables) → P t → R t) (s : Db) (out : Result A × Db)
      → P s.tables
      → Outcome Q R out
      → Outcome Q R (finish s out)
  unfolding finish
  finished weaken s (ok a, s') h k = k
  finished weaken s (err e, s') h k = weaken s.tables h

module _ {A B : Type 0} (Q : A → Tables → Type 0) (R : Tables → Type 0)
    (S : B → Tables → Type 0) where
  followed :
      (f : A → M B)
      → ((a : A) → Leads (Q a) (f a) S R)
      → (out : Result A × Db) → Outcome Q R out
      → Outcome S R (follow f out)
  unfolding follow
  followed f k (ok a, s) h = (k a).at s h
  followed f k (err e, s) h = h

module _ {A : Type 0} {P R : Tables → Type 0} {Q : A → Tables → Type 0} where
  pub Leads-sql :
      (q : Tables → Result A × Tables)
      → ((t : Tables) (faults : List Bool)
          → P t
          → Outcome Q R ((q t).0, record { tables = (q t).1; faults = faults }))
      → ((t : Tables) → P t → R t)
      → Leads P (sql q) Q R
  unfolding sql
  Leads-sql q k weaken = record {
    at = λ s h.
        answered P R Q weaken (draw s.faults).0 (draw s.faults).1 (q s.tables) s h
          (k s.tables (draw s.faults).1 h);
  }

  pub Leads-transaction :
      (m : M A) → Leads P m Q R → ((t : Tables) → P t → R t) → Leads P (transaction m) Q R
  unfolding transaction
  Leads-transaction m k weaken = record { at = λ s h. finished P R Q weaken s (m s) h (k.at s h) }

pub Leads-raise_if :
    {P R S : Tables → Type 0} (b : Bool) (e : Error)
    → ((t : Tables) → P t → b ≡ false → S t)
    → ((t : Tables) → P t → b ≡ true → R t)
    → Leads P (raise_if b e) (λ (_ : ⊤). S) R
unfolding raise_if
Leads-raise_if true e pass refuse = record { at = λ s h. refuse s.tables h refl }
Leads-raise_if false e pass refuse = record { at = λ s h. pass s.tables h refl }

module _ {A B : Type 0} {P R : Tables → Type 0} {Q : A → Tables → Type 0}
    {S : B → Tables → Type 0} where
  pub Leads-bind :
      (m : M A) (f : A → M B)
      → Leads P m Q R
      → ((a : A) → Leads (Q a) (f a) S R)
      → Leads P (m >>= f) S R
  unfolding ◌>>=◌
  Leads-bind m f km kf = record { at = λ s h. followed Q R S f kf (m s) (km.at s h) }

module _ {A : Type 0} (Q : A → Tables → Type 0) (R : Tables → Type 0) where
  -- What a query for a row that must be there establishes.
  abbrev pub Found : Option A → Tables → Type 0
  Found none t = R t
  Found (some a) t = Q a t

  demanded :
      (e : Error) (m : M (Option A)) (s : Db) → Outcome Found R (m s) → Outcome Q R (must m e s)
  unfolding must require
  demanded e m s h = go (m s) h
    where
      go :
          (out : Result (Option A) × Db)
          → Outcome Found R out
          → Outcome Q R (
              let (r, s') = out in
              let all : Result A × Db = elim r [ ok o ↦ require o e s' | err _ ↦ (err e, s') ] in
              all)
      go (ok none, s') k = k
      go (ok (some a), s') k = k
      go (err x, s') k = k

pub Leads-must :
    {A : Type 0} {P R : Tables → Type 0} {Q : A → Tables → Type 0} (m : M (Option A)) (e : Error)
    → Leads P m (Found Q R) R
    → Leads P (must m e) Q R
Leads-must {A} {P} {R} {Q} m e k = record { at = λ s h. demanded Q R e m s (k.at s h) }

module _ {A : Type 0} (Q S : A → Tables → Type 0) (R : Tables → Type 0) where
  weaker :
      ((a : A) (t : Tables) → Q a t → S a t)
      → (out : Result A × Db) → Outcome Q R out
      → Outcome S R out
  weaker k (ok a, s) h = k a s.tables h
  weaker k (err e, s) h = h

pub Leads-weaken :
    {A : Type 0} {P R : Tables → Type 0} {Q S : A → Tables → Type 0} (m : M A)
    → Leads P m Q R
    → ((a : A) (t : Tables) → Q a t → S a t)
    → Leads P m S R
Leads-weaken {A} {P} {R} {Q} {S} m k w = record { at = λ s h. weaker Q S R w (m s) (k.at s h) }

module _ {A : Type 0} (Q : A → Tables → Type 0) (R : Tables → Type 0) where
  -- What a statement whose error is inspected establishes.
  abbrev pub Tried : Result A → Tables → Type 0
  Tried (ok a) t = Q a t
  Tried (err e) t = R t

  tried :
      (S : Tables → Type 0) (out : Result A × Db)
      → Outcome Q R out
      → Outcome Tried S (let (r, s) = out in (ok r, s))
  tried S (ok a, s) h = h
  tried S (err e, s) h = h

pub Leads-try :
    {A : Type 0} {P R S : Tables → Type 0} {Q : A → Tables → Type 0} (m : M A)
    → Leads P m Q R
    → Leads P (try m) (Tried Q R) S
unfolding try
Leads-try {A} {P} {R} {S} {Q} m k = record { at = λ s h. tried Q R S (m s) (k.at s h) }

module _ {A : Type 0} (Q R : Tables → Type 0) where
  ignored : (out : Result A × Db) → Outcome (λ _. Q) Q out → Outcome (λ (_ : ⊤). Q) R (ok tt, out.1)
  ignored (ok a, s) h = h
  ignored (err e, s) h = h

-- A call whose error is dropped.
pub Leads-ignore :
    {A : Type 0} {P Q R : Tables → Type 0} (m : M A)
    → Leads P m (λ _. Q) Q
    → Leads P (ignore m) (λ _. Q) R
unfolding ignore
Leads-ignore {A} {P} {Q} {R} m k = record { at = λ s h. ignored Q R (m s) (k.at s h) }

-- A row that must be there.
pub Leads-require :
    {A : Type 0} {P R : Tables → Type 0} {Q : A → Tables → Type 0} (o : Option A) (e : Error)
    → ((a : A) (t : Tables) → o ≡ some a → P t → Q a t)
    → ((t : Tables) → P t → R t)
    → Leads P (require o e) Q R
unfolding require
Leads-require none e k weaken = record { at = λ s h. weaken s.tables h }
Leads-require (some a) e k weaken = record { at = λ s h. k a s.tables refl h }

-- A query, and what is known of its answer.
pub Leads-query :
    {A : Type 0} {P R : Tables → Type 0} (f : Tables → A)
    → ((t : Tables) → P t → R t)
    → Leads P (query f) (λ a t. P t × (f t ≡ a)) R
Leads-query f weaken = Leads-sql _ (λ t faults h. (h, refl)) weaken

module _ {A : Type 0} (Q : Tables → Type 0) where
  either_way :
      (out : Result A × Tables) (faults : List Bool)
      → Q out.1
      → Outcome (λ _. Q) Q (out.0, record { tables = out.1; faults = faults })
  either_way (ok a, t) faults h = h
  either_way (err e, t) faults h = h

-- A statement that leads to the same whether it answers or refuses.
pub Leads-sql_any :
    {A : Type 0} {P Q : Tables → Type 0} (q : Tables → Result A × Tables)
    → ((t : Tables) → P t → Q (q t).1)
    → ((t : Tables) → P t → Q t)
    → Leads P (sql q) (λ _. Q) Q
Leads-sql_any {A} {P} {Q} q k weaken =
    Leads-sql q (λ t faults h. either_way Q (q t) faults (k t h)) weaken

pub Leads-pure :
    {A : Type 0} {P R : Tables → Type 0} {Q : A → Tables → Type 0} (a : A)
    → ((t : Tables) → P t → Q a t)
    → Leads P (pure a) Q R
unfolding pure
Leads-pure a k = record { at = λ s h. k s.tables h }
