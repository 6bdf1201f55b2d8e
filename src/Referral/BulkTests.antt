-- ===== src/Referral/BulkTests.antt =====
-- A batch of two codes, of which the second is drawn again.
use lurus_identity.Base.{◌≡◌, refl, String, none, some, List, [], ◌∷◌, map, arith, if◌then◌else◌}
use lurus_identity.Text.{Text, codes, equal}
use lurus_identity.Table.{first}
use lurus_identity.Table.Laws.{All}
use lurus_identity.Entity.Billing.{RedemptionCode}
use lurus_identity.Store.{empty, Tables, ok, pure, ◌>>=◌, raise_if, sql, transaction}
use lurus_identity.Store.Run.{calm}
use lurus_identity.Referral.Bulk.{
  drawn, draw_codes, generate_code, trial_code, bulk_generate_codes, with_row,
}
use lurus_identity.Referral.Batch.{AreDistinct, distinct, length, draw_codes-IsDone}
use lurus_identity.Referral.Unredeemable.{Refused, bulk_generate_codes-Refused}

abbrev hex : Text → String
hex bytes = if equal bytes (codes "a") then "0A" else "0B"

abbrev same : String → String
same s = s

abbrev reads : List Text
reads = codes "a" ∷ codes "a" ∷ codes "b" ∷ []

enough : distinct [] (map (generate_code hex same) reads) ≡ 2
unfolding distinct generate_code
enough = refl

draw_codes-IsDone_example :
    (cs : List String) × (draw_codes hex same 2 [] (map (λ b. some b) reads) ≡ drawn cs)
    × (length cs ≡ 2)
    × AreDistinct cs
draw_codes-IsDone_example = draw_codes-IsDone hex same reads 2 [] tt (omega (arith, enough))

abbrev rows : List RedemptionCode
rows = trial_code "llm" 30 none "0A" ∷ trial_code "llm" 30 none "0B" ∷ []

abbrev stored : Tables
stored = with_row (trial_code "llm" 30 none "0B") (with_row (trial_code "llm" 30 none "0A") empty)

generated :
    bulk_generate_codes hex same "llm" 30 none 2 (map (λ b. some b) reads) (calm empty)
    ≡ (ok (some rows), calm stored)
unfolding bulk_generate_codes pure ◌>>=◌ raise_if transaction sql first
generated = refl

bulk_generate_codes-Refused_example : All (Refused stored) rows
bulk_generate_codes-Refused_example =
    bulk_generate_codes-Refused hex same "llm" 30 none 2 (map (λ b. some b) reads) (calm empty)
      (calm stored) rows generated
