-- ===== src/RateLimit/Window.antt =====
-- No window of time lets more requests pass than the limit, but for the rounding of the instants.
use lurus_identity.Base.{
  ℕ, suc, ◌+◌, ◌-◌, ◌≤◌, ◌<◌, ◌≡◌, refl, Bool, true, ◌&&◌, none, List, [], ◌∷◌, arith, Bool-cases,
  inl, inr, ltb, leb, ◌==◌,
}
use lurus_identity.Table.{first, select, count}
use lurus_identity.Table.Count.{count-select_le, count_le}
use lurus_identity.RateLimit.{Key, no_key, float64, is_behind, in_window, zadd, allow}

-- A request that was served: when, and whether it passed.
pub record Served : Type 0 where
  pub at : ℕ
  pub passed : Bool

-- The requests of one key in turn, each with the time since the one before, less one nanosecond. The
-- log has the latest first.
unfoldable pub serve : ℕ → ℕ → List ℕ → ℕ → List Served → Key → List Served
serve limit window [] last log k = log
serve limit window (gap ∷ gaps) last log k =
    let now = last + suc gap in
    let (pass, k') = allow limit window now k in
    serve limit window gaps now (record { at = now; passed = pass } ∷ log) k'

-- The requests that passed after `b`, and at most `span` after it.
abbrev pub passed_in : ℕ → ℕ → Served → Bool
passed_in span b r = r.passed && ltb b r.at && leb r.at (b + span)

abbrev passed_after : ℕ → Served → Bool
passed_after b r = r.passed && ltb b r.at

-- What the log and the key have to do with each other, when the last request was at `last`.
record IsLogged (limit window span last : ℕ) (log : List Served) (k : Key) : Type 0 where
  -- what passed in the present window is in the set
  held : (b : ℕ) → last ≤ b + span → count (passed_after b) log ≤ count (λ x. ltb b x) k.entries
  none_later : (b : ℕ) → last ≤ b → count (λ x. ltb b x) k.entries ≡ 0
  past : (b : ℕ) → last ≤ b → count (passed_after b) log ≡ 0
  expired : (b : ℕ) → k.expires_at ≤ b + window → count (λ x. ltb b x) k.entries ≡ 0
  bounded : (b : ℕ) → count (passed_in span b) log ≤ limit

-- Instants that are more than 256 nanoseconds apart have different scores.
float64_lt : (x y : ℕ) → x + 256 < y → float64 x < float64 y
unfolding float64
float64_lt x y h = ground arith

-- Members that are less than the window old, by 256 nanoseconds, are kept.
behind :
    (now window span b x : ℕ)
    → span + 256 ≤ window
    → now ≤ b + span
    → b < x
    → is_behind now window x ≡ true
behind now window span b x s h l = elim (Bool-cases (ltb now window)) [
  | inl e ↦ rw e refl
  | inr e ↦ rw e (let later = float64_lt (now - window) x (ground arith) in ground arith)
]

count-kept :
    (now window span b : ℕ) (xs : List ℕ)
    → span + 256 ≤ window
    → now ≤ b + span
    → count (λ x. ltb b x) (select (is_behind now window) xs) ≡ count (λ x. ltb b x) xs
unfolding count select
count-kept now window span b [] s h = refl
count-kept now window span b (x ∷ xs) s h = elim (Bool-cases (ltb b x)) [
  | inl e ↦
      rw (behind now window span b x s h (ground arith), e)
        (ground (arith, count-kept now window span b xs s h))
  | inr e ↦ ground (arith, e, count-kept now window span b xs s h)
]

no_member :
    (last now : ℕ) (xs : List ℕ)
    → last < now
    → count (λ x. ltb last x) xs ≡ 0
    → first (λ x. x == now) xs ≡ none
unfolding count first
no_member last now [] l h = refl
no_member last now (x ∷ xs) l h = ground (arith, no_member last now xs l)

module _ (limit window span last now : ℕ) (log : List Served) (k : Key)
    (margin : span + 256 ≤ window) (later : last < now)
    (h : IsLogged limit window span last log k) where
  window_count :
      (b : ℕ)
      → now ≤ b + span
      → count (λ x. ltb b x) (in_window now window k) ≡ count (λ x. ltb b x) k.entries
  unfolding in_window select count
  window_count b l = elim (Bool-cases (leb k.expires_at now)) [
    | inl e ↦ rw e (omega (arith, h.expired b (ground (arith, e, margin))))
    | inr e ↦ rw e (count-kept now window span b k.entries margin l)
  ]

  window-none : count (λ x. ltb last x) (in_window now window k) ≡ 0
  unfolding in_window select count
  window-none = elim (Bool-cases (leb k.expires_at now)) [
    | inl e ↦ rw e refl
    | inr e ↦ rw e (
        omega (
          arith,
          count-select_le (λ x. ltb last x) (is_behind now window) k.entries,
          h.none_later last (omega arith),
        ))
  ]

  zadd-new : zadd now (in_window now window k) ≡ now ∷ in_window now window k
  zadd-new = rw (no_member last now (in_window now window k) later window-none, zadd) refl

  next_log : List Served
  next_log = record { at = now; passed = (allow limit window now k).0 } ∷ log

  bounded_next : (b : ℕ) → count (passed_in span b) next_log ≤ limit
  unfolding next_log count allow
  bounded_next b = ground (
    arith,
    h.bounded b,
    h.held b,
    window_count b,
    count_le (passed_in span b) (passed_after b) log (λ x e. ground (arith, e)),
    count_le (λ x. ltb b x) (λ _. true) (in_window now window k) (λ x e. refl),
  )

  allow-IsLogged : IsLogged limit window span now next_log (allow limit window now k).1
  unfolding next_log count allow
  allow-IsLogged = rw zadd-new (record {
    held = λ b l. ground (arith, h.held b, window_count b);
    none_later = λ b l. ground (arith, h.none_later b, window_count b);
    past = λ b l. ground (arith, h.past b);
    expired = λ b l. ground (arith, h.none_later b, window_count b);
    bounded = bounded_next;
  })

serve-bounded :
    (limit window span : ℕ) (gaps : List ℕ) (last : ℕ) (log : List Served) (k : Key) (b : ℕ)
    → span + 256 ≤ window
    → IsLogged limit window span last log k
    → count (passed_in span b) (serve limit window gaps last log k) ≤ limit
unfolding serve next_log
serve-bounded limit window span [] last log k b m h = h.bounded b
serve-bounded limit window span (gap ∷ gaps) last log k b m h =
    serve-bounded limit window span gaps (last + suc gap) _ _ b m
      (allow-IsLogged limit window span last (last + suc gap) log k m (omega arith) h)

empty-IsLogged : (limit window span start : ℕ) → IsLogged limit window span start [] no_key
unfolding count
empty-IsLogged limit window span start = record {
  held = λ b l. omega arith;
  none_later = λ b l. refl;
  past = λ b l. refl;
  expired = λ b l. refl;
  bounded = λ b. omega arith;
}

-- Of the requests of one key, at increasing instants after `start` and with Redis at work, at most `limit`
-- pass in any time that is at least 256 nanoseconds shorter than the window, wherever it starts. (The
-- instants are from 2006 to 2043, where the scores are multiples of 256 nanoseconds.)
pub serve-IsBounded :
    (limit window span start : ℕ) (gaps : List ℕ) (b : ℕ)
    → span + 256 ≤ window
    → count (passed_in span b) (serve limit window gaps start [] no_key) ≤ limit
serve-IsBounded limit window span start gaps b margin =
    serve-bounded limit window span gaps start [] no_key b margin
      (empty-IsLogged limit window span start)
