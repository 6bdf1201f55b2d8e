-- ===== src/Vip/Tests.antt =====
-- A gold account that is given a yearly subscription's level.
use lurus_identity.Base.{refl, pos, [], ◌∷◌}
use lurus_identity.Store.{Tables, empty}
use lurus_identity.Store.Run.{calm}
use lurus_identity.Vip.{recalculate_from_wallet, grant_yearly_sub}
use lurus_identity.Vip.Levels.{AreGraded, level_is_larger_grant}

abbrev levels : Tables
levels = record empty {
  wallets =
      record {
        id = 1;
        account_id = 7;
        balance = pos 0;
        frozen = pos 0;
        lifetime_topup = pos 20000000;
        lifetime_spend = pos 0;
      }
      ∷ [];
  vips =
      record {
        account_id = 7;
        level = 1;
        level_name = "Silver";
        yearly_sub_grant = 1;
        spend_grant = 0;
      }
      ∷ [];
  vip_configs =
      record { level = 0; name = "Standard"; min_spend_cny = pos 0 }
      ∷ record { level = 2; name = "Gold"; min_spend_cny = pos 20000000 }
      ∷ [];
}

level_is_larger_grant_example :
    AreGraded (recalculate_from_wallet 7 (calm levels)).1.tables
    × AreGraded (grant_yearly_sub 7 3 (calm levels)).1.tables
level_is_larger_grant_example = (
  (level_is_larger_grant 7 3).0.at (calm levels) (refl, tt),
  (level_is_larger_grant 7 3).1.at (calm levels) (refl, tt),
)
