-- ===== src/RateLimit.antt =====
-- internal/pkg/ratelimit/limiter.go: a sliding window over a Redis sorted set. A key's set holds the
-- instants of the requests, in nanoseconds, as members; the score of a member is the nearest float64. A
-- failing pipeline changes nothing and lets the request pass.
pub mod Window
pub mod Tests
use lurus_identity.Base.{
  ℕ, ◌+◌, ◌-◌, ◌*◌, ◌/◌, ◌%◌, Bool, true, false, not, ◌||◌, ◌&&◌, Option, none, some, List, [], ◌∷◌,
  ◌==◌, ltb, leb, if◌then◌else◌,
}
use lurus_identity.Table.{first, select, count}

-- One minute and one second, in nanoseconds.
abbrev pub minute : ℕ
minute = 60000000000

abbrev pub second : ℕ
second = 1000000000

pub record Limiter : Type 0 where
  pub has_redis : Bool
  pub ip_limit : ℕ
  pub user_limit : ℕ
  pub window : ℕ

-- `New` of `DefaultConfig`
unfoldable pub default_limiter : Bool → ℕ → ℕ → Limiter
default_limiter has_redis ip user = record {
  has_redis = has_redis;
  ip_limit = ip;
  user_limit = user;
  window = minute;
}

-- A key of Redis: the members of its set, and when it expires.
pub record Key : Type 0 where
  pub entries : List ℕ
  pub expires_at : ℕ

abbrev pub no_key : Key
no_key = record { entries = []; expires_at = 0 }

abbrev pub live_entries : ℕ → Key → List ℕ
live_entries now k = if leb k.expires_at now then [] else k.entries

-- `float64(x)` of an instant from 2^60 to 2^61 nanoseconds (the years 2006 to 2043): the nearest multiple
-- of 256, and the even one of two that are as near.
unfoldable pub float64 : ℕ → ℕ
float64 x =
    let q = x / 256 in
    let r = x % 256 in if ltb 128 r || (r == 128 && q % 2 == 1) then 256 * (q + 1) else 256 * q

-- ZREMRANGEBYSCORE from 0 to the start of the window, which Redis reads as a float64: a member is kept when
-- its score lies behind it. Before a window has passed since the epoch, the range is empty.
abbrev pub is_behind : ℕ → ℕ → ℕ → Bool
is_behind now window x = ltb now window || ltb (float64 (now - window)) (float64 x)

unfoldable pub in_window : ℕ → ℕ → Key → List ℕ
unfolding float64
in_window now window k = select (is_behind now window) (live_entries now k)

-- ZCARD and ZADD
abbrev pub card : List ℕ → ℕ
card xs = count (λ _. true) xs

abbrev pub zadd : ℕ → List ℕ → List ℕ
zadd x xs = elim (first (λ y. y == x) xs) [ some _ ↦ xs | none ↦ x ∷ xs ]

unfoldable pub allow : ℕ → ℕ → ℕ → Key → Bool × Key
unfolding in_window
allow limit window now k = (
  ltb (card (in_window now window k)) limit,
  record { entries = zadd now (in_window now window k); expires_at = now + window + second },
)

-- `allow`, when the pipeline fails or does not.
unfoldable pub try_allow : Bool → ℕ → ℕ → ℕ → Key → Bool × Key
unfolding allow
try_allow failed limit window now k = if failed then (true, k) else allow limit window now k

-- Whether the request is passed on; otherwise it is answered 429.
unfoldable pub per_ip : Limiter → Bool → ℕ → Key → Bool × Key
unfolding try_allow
per_ip l failed now k =
    if not l.has_redis then (true, k) else try_allow failed l.ip_limit l.window now k

-- The account of the token, when there is one; 0 stands for none.
unfoldable pub per_user : Limiter → Bool → Option ℕ → ℕ → Key → Bool × Key
unfolding try_allow
per_user l failed none now k = (true, k)
per_user l failed (some a) now k =
    if not l.has_redis || a == 0 then (true, k) else try_allow failed l.user_limit l.window now k
