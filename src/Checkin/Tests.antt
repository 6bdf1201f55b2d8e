-- ===== src/Checkin/Tests.antt =====
-- A check-in after a day's streak.
use lurus_identity.Base.{pos, [], ◌∷◌}
use lurus_identity.Store.{Tables, empty}

abbrev visited : Tables
visited = record empty {
  next_id = 3;
  wallets =
      record {
        id = 1;
        account_id = 7;
        balance = pos 0;
        frozen = pos 0;
        lifetime_topup = pos 0;
        lifetime_spend = pos 0;
      }
      ∷ [];
  checkins = record { id = 2; account_id = 7; checkin_date = 19; reward_value = pos 1000 } ∷ [];
}
