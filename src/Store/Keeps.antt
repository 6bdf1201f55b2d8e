-- ===== src/Store/Keeps.antt =====
-- Invariants of calls: one rule for each way to build a call, so that `search` proves that an
-- operation keeps an invariant from the statements that keep it.
use lurus_identity.Base.{◌≡◌, refl, Bool, true, false, Option, none, some, List, if◌then◌else◌}
use lurus_identity.Store.{
  Tables, Db, Error, Result, ok, err, M, pure, raise, lift, ◌>>=◌, follow, raise_if, require, draw,
  answer, sql, query, finish, transaction, ignore, must, try,
}

-- `m` keeps `P` of the tables, whatever it returns and whichever statements fail.
pub record Keeps {A : Type 0} (P : Tables → Type 0) (m : M A) : Type 0 where
  pub at : (s : Db) → P s.tables → P (m s).1.tables

pub Keeps-raise_if : {P : Tables → Type 0} (b : Bool) (e : Error) → Keeps P (raise_if b e)
unfolding raise_if
Keeps-raise_if b e = record { at = λ s h. h }

module _ {A : Type 0} {P : Tables → Type 0} where
  pub Keeps-require : (o : Option A) (e : Error) → Keeps P (require o e)
  unfolding require
  Keeps-require none e = record { at = λ s h. h }
  Keeps-require (some a) e = record { at = λ s h. h }

  pub Keeps-lift : (r : Result A) → Keeps P (lift r)
  unfolding lift
  Keeps-lift r = record { at = λ db kept. kept }

  pub Keeps-pure : (a : A) → Keeps P (pure a)
  unfolding pure
  Keeps-pure a = record { at = λ s h. h }

  pub Keeps-if :
      (b : Bool) (m1 m2 : M A)
      → (b ≡ true → Keeps P m1)
      → (b ≡ false → Keeps P m2)
      → Keeps P (if b then m1 else m2)
  Keeps-if true m1 m2 k1 k2 = k1 refl
  Keeps-if false m1 m2 k1 k2 = k2 refl

  pub Keeps-raise : (e : Error) → Keeps P (raise {A = A} e)
  unfolding raise
  Keeps-raise e = record { at = λ db kept. kept }

  pub Keeps-ignore : (m : M A) → Keeps P m → Keeps P (ignore m)
  unfolding ignore
  Keeps-ignore m k = record { at = k.at }

  pub Keeps-try : (m : M A) → Keeps P m → Keeps P (try m)
  unfolding try
  Keeps-try m k = record { at = k.at }

module _ {A : Type 0} (P : Tables → Type 0) where
  after_finish :
      (s : Db) (out : Result A × Db) → P s.tables → P out.1.tables → P (finish s out).1.tables
  unfolding finish
  after_finish s (ok a, s') h h' = h'
  after_finish s (err e, s') h h' = h

  after_answer :
      (failed : Bool) (rest : List Bool) (out : Result A × Tables) (s : Db)
      → P s.tables
      → P out.1
      → P (answer failed rest out s).1.tables
  unfolding answer
  after_answer true rest out s h h' = h
  after_answer false rest out s h h' = h'

module _ {A : Type 0} {P : Tables → Type 0} where
  pub Keeps-transaction : (m : M A) → Keeps P m → Keeps P (transaction m)
  unfolding transaction
  Keeps-transaction m k = record { at = λ s h. after_finish P s (m s) h (k.at s h) }

  pub Keeps-sql :
      (q : Tables → Result A × Tables) → ((t : Tables) → P t → P (q t).1) → Keeps P (sql q)
  unfolding sql
  Keeps-sql q k = record {
    at = λ s h. after_answer P (draw s.faults).0 (draw s.faults).1 (q s.tables) s h (k s.tables h);
  }

module _ {A : Type 0} {P : Tables → Type 0} where
  pub Keeps-must : (m : M (Option A)) (e : Error) → Keeps P m → Keeps P (must m e)
  unfolding must require
  Keeps-must m e k = record { at = λ s h. go (m s) (k.at s h) }
    where
      go :
          (out : Result (Option A) × Db)
          → P out.1.tables
          → P (
              let (r, s') = out in
              let all : Result A × Db = elim r [ ok o ↦ require o e s' | err _ ↦ (err e, s') ] in
              all.1.tables)
      go (ok none, s') h = h
      go (ok (some a), s') h = h
      go (err x, s') h = h

  pub Keeps-query : (f : Tables → A) → Keeps P (query f)
  Keeps-query f = Keeps-sql _ (λ t h. h)

module _ {A B : Type 0} {P : Tables → Type 0} where
  after_follow :
      (f : A → M B)
      → ((a : A) → Keeps P (f a))
      → (out : Result A × Db) → P out.1.tables
      → P (follow f out).1.tables
  unfolding follow
  after_follow f k (ok a, s) h = (k a).at s h
  after_follow f k (err e, s) h = h

  pub Keeps-bind :
      (m : M A) (f : A → M B) → Keeps P m → ((a : A) → Keeps P (f a)) → Keeps P (m >>= f)
  unfolding ◌>>=◌
  Keeps-bind m f km kf = record { at = λ s h. after_follow f kf (m s) (km.at s h) }

pub ruleset keeps_rules = (
  Keeps-pure, Keeps-raise, Keeps-lift, Keeps-require, Keeps-if, Keeps-ignore, Keeps-try,
  Keeps-transaction, Keeps-bind, Keeps-raise_if, Keeps-query, Keeps-must,
)
