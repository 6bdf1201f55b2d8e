-- ===== src/RateLimit/Tests.antt =====
-- Two requests of three pass a limit of two in a window.
use lurus_identity.Base.{ℕ, ◌+◌, ◌≤◌, ◌≡◌, refl, [], ◌∷◌, arith, List}
use lurus_identity.Table.{count}
use lurus_identity.RateLimit.{no_key, minute, float64}
use lurus_identity.RateLimit.Window.{passed_in, serve, serve-IsBounded}

abbrev start : ℕ
start = 1790000000000000000

abbrev gaps : List ℕ
gaps = 9 ∷ 9 ∷ 9 ∷ 200 ∷ []

serve-IsBounded_example :
    count (passed_in 59000000000 start) (serve 2 minute gaps start [] no_key) ≤ 2
serve-IsBounded_example = serve-IsBounded 2 minute 59000000000 start gaps start (omega arith)

-- Instants half way between two multiples of 256.
halves : (float64 (start + 128) ≡ start) × (float64 (start + 384) ≡ start + 512)
unfolding float64
halves = (refl, refl)
