-- ===== src/Store/Run.antt =====
-- A call that meets no failing statement, and why it is enough to look at such runs: what a call
-- with failures returns successfully is what it returns without them, and a transaction that does
-- not succeed changes nothing.
use lurus_identity.Base.{
  ◌≡◌, refl, sym, ap, ◌∙◌, subst, Bool, true, false, Option, none, some, List, [], if◌then◌else◌,
}
use lurus_identity.Store.{
  ◌>>◌, Tables, Db, Error, Result, ok, err, M, pure, raise, ◌>>=◌, follow, raise_if, require, draw,
  answer, sql, finish, transaction,
}
use lurus_identity.Store.Keeps.{Keeps}

abbrev pub calm : Tables → Db
calm t = record { tables = t; faults = [] }

-- The result and the tables of a call that meets no failing statement.
unfoldable pub run : {A : Type 0} → M A → Tables → Result A × Tables
run m t = let (r, s) = m (calm t) in (r, s.tables)

abbrev calm_result : {A : Type 0} → Result A → Tables → Result A × Db
calm_result r t = (r, calm t)

-- A success does not depend on the schedule of failures.
pub record IsSound {A : Type 0} (m : M A) : Type 0 where
  pub at : (s : Db) {a : A} → (m s).0 ≡ ok a → m (calm s.tables) ≡ (ok a, calm (m s).1.tables)

-- A call that fails leaves the tables as they were.
pub record IsAtomic {A : Type 0} (m : M A) : Type 0 where
  pub at : (s : Db) {e : Error} → (m s).0 ≡ err e → (m s).1.tables ≡ s.tables

pub raise_if-IsSound : (b : Bool) (e : Error) → IsSound (raise_if b e)
unfolding raise_if
raise_if-IsSound true e = record { at = λ s h. cc }
raise_if-IsSound false e = record { at = λ s h. ap (λ r. (r, calm s.tables)) h }

module _ {A : Type 0} where
  pub pure-IsSound : (a : A) → IsSound (pure a)
  unfolding pure
  pure-IsSound a = record { at = λ s h. ap (λ r. (r, calm s.tables)) h }

  pub raise-IsSound : (e : Error) → IsSound (raise {A = A} e)
  unfolding raise
  raise-IsSound e = record { at = λ s h. cc }

  pub require-IsSound : (o : Option A) (e : Error) → IsSound (require o e)
  unfolding require
  require-IsSound none e = record { at = λ s h. cc }
  require-IsSound (some a) e = record { at = λ s h. ap (λ r. (r, calm s.tables)) h }

  pub if-IsSound : (b : Bool) (m n : M A) → IsSound m → IsSound n → IsSound (if b then m else n)
  if-IsSound true m n km kn = km
  if-IsSound false m n km kn = kn

  answered :
      (failed : Bool) (rest : List Bool) (q : Result A × Tables) (s : Db) {a : A}
      → (answer failed rest q s).0 ≡ ok a
      → calm_result q.0 q.1 ≡ (ok a, calm (answer failed rest q s).1.tables)
  unfolding answer
  answered true rest q s h = cc
  answered false rest q s h = ap (λ (r : Result A). (r, calm q.1)) h

  pub sql-IsSound : (q : Tables → Result A × Tables) → IsSound (sql q)
  unfolding sql
  sql-IsSound q = record {
    at = λ s h. answered (draw s.faults).0 (draw s.faults).1 (q s.tables) s h;
  }

  finished :
      (s : Db) (out calm_out : Result A × Db) {a : A}
      → ((b : A) → out.0 ≡ ok b → calm_out ≡ (ok b, calm out.1.tables))
      → (finish s out).0 ≡ ok a
      → finish (calm s.tables) calm_out ≡ (ok a, calm (finish s out).1.tables)
  unfolding finish
  finished s (ok b, s') out k h = rw (k b refl) (ap (λ (r : Result A). (r, calm s'.tables)) h)
  finished s (err e, s') out k h = cc

  pub transaction-IsSound : (m : M A) → IsSound m → IsSound (transaction m)
  unfolding transaction
  transaction-IsSound m k = record {
    at = λ s h. finished s (m s) (m (calm s.tables)) (λ b e. k.at s e) h;
  }

  undone :
      (s : Db) (out : Result A × Db) {e : Error}
      → (finish s out).0 ≡ err e
      → (finish s out).1.tables ≡ s.tables
  unfolding finish
  undone s (ok a, s') h = cc
  undone s (err e, s') h = refl

  pub transaction-IsAtomic : (m : M A) → IsAtomic (transaction m)
  unfolding transaction
  transaction-IsAtomic m = record { at = λ s h. undone s (m s) h }

module _ {A B : Type 0} where
  followed :
      (f : A → M B)
      → ((a : A) → IsSound (f a))
      → (out calm_out : Result A × Db) {b : B}
      → ((a : A) → out.0 ≡ ok a → calm_out ≡ (ok a, calm out.1.tables))
      → (follow f out).0 ≡ ok b
      → follow f calm_out ≡ (ok b, calm (follow f out).1.tables)
  unfolding follow
  followed f kf (ok a, s) out k h = rw (k a refl) ((kf a).at s h)
  followed f kf (err e, s) out k h = cc

  pub bind-IsSound :
      (m : M A) (f : A → M B) → IsSound m → ((a : A) → IsSound (f a)) → IsSound (m >>= f)
  unfolding ◌>>=◌
  bind-IsSound m f km kf = record {
    at = λ s h. followed f kf (m s) (m (calm s.tables)) (λ a e. km.at s e) h;
  }

pub ruleset sound_rules = (
  pure-IsSound, raise-IsSound, require-IsSound, raise_if-IsSound, if-IsSound, sql-IsSound,
  bind-IsSound, transaction-IsSound,
)

pub run_of_calm :
    {A : Type 0} (m : M A) {r : Result A} {s : Db} (t : Tables)
    → m (calm t) ≡ (r, s)
    → run m t ≡ (r, s.tables)
unfolding run
run_of_calm m t e =
    ap (λ (out : Result _ × Db). let p : Result _ × Tables = (out.0, out.1.tables) in p) e

follow-pure :
    {A B : Type 0} (b : B) (out : Result A × Db) {a : A}
    → out.0 ≡ ok a
    → follow (λ _. pure b) out ≡ (ok b, out.1)
unfolding follow pure
follow-pure b (ok a, s) e = refl
follow-pure b (err x, s) e = cc

-- A result put in place of a successful call's own.
pub then_pure :
    {A B : Type 0} (m : M A) (b : B) (s : Db) {a : A}
    → (m s).0 ≡ ok a
    → (m >> pure b) s ≡ (ok b, (m s).1)
unfolding ◌>>=◌
then_pure m b s e = follow-pure b (m s) e

-- A successful run leaves the schedule of no failures.
pub calm_of_run :
    {A : Type 0} (m : M A) {a : A} {t t' : Tables}
    → IsSound m
    → run m t ≡ (ok a, t')
    → m (calm t) ≡ (ok a, calm t')
unfolding run
calm_of_run m {a} {t} sound e =
    sound.at (calm t) (ap (λ (p : Result _ × Tables). p.0) e)
    ∙ ap (λ (p : Result _ × Tables). calm_result (ok a) p.1) e

module _ {A : Type 0} (P : Tables → Type 0) (m : M A) (sound : IsSound m)
    (atomic : IsAtomic m) where
  by_result :
      (s : Db) (r : Result A) → P s.tables → P (run m s.tables).1 → (m s).0 ≡ r → P (m s).1.tables
  unfolding run
  by_result s (ok a) h k e = subst P (ap (λ (d : Result A × Db). d.1.tables) (sound.at s e)) k
  by_result s (err x) h k e = subst P (sym (atomic.at s e)) h

  -- An invariant of an atomic call is proved from its runs without failures.
  pub Keeps-of_run : ((t : Tables) → P t → P (run m t).1) → Keeps P m
  Keeps-of_run k = record { at = λ s h. by_result s (m s).0 h (k s.tables h) refl }
