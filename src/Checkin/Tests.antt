-- ===== src/Checkin/Tests.antt =====
-- Check-ins in a small database.
use novelhub.Prelude.{none, ◌∷◌, [], ◌≡◌, refl, arith, false}
use novelhub.Prelude.Int.{pos, ◌+ℤ◌, neg}
use novelhub.Action.{ok, err, domain, conflict}
use novelhub.Schema.{CoinTransaction, DailyCheckin, daily_checkin, Db}
use novelhub.Sample.{client, client-IsDocumented, library, reader, bonus}
use novelhub.Coins.{adjust_balance, spend, grant, record_txn, update_users, create_coin_txn}
use novelhub.Checkin.{
  CheckinClaim, CheckinStatus, claim, claim_body, award, create_checkin, claim_failure, find_latest,
  next_streak, reward_for_streak, get_status,
}
use novelhub.Checkin.Once.{claim-again}
use novelhub.Checkin.Reward.{claim-promised}

-- The third day, after a check-in on the second.
abbrev yesterday : DailyCheckin
yesterday = record {
  id = 1;
  user_id = 1;
  checkin_date = 1;
  streak_count = 3;
  coins_awarded = pos 5;
}

abbrev before : Db
before = record library { checkins = yesterday ∷ [] }

abbrev reward_row : CoinTransaction
reward_row = record {
  id = 2;
  user_id = 1;
  amount = pos 10;
  type = daily_checkin;
  related_id = none;
  balance_after = pos 30;
  created_at = 172800005;
}

abbrev after : Db
after = record library {
  users = record reader { coin_balance = pos 30 } ∷ [];
  coin_txns = bonus ∷ reward_row ∷ [];
  checkins =
      yesterday
      ∷ record { id = 2; user_id = 1; checkin_date = 2; streak_count = 4; coins_awarded = pos 10 }
      ∷ [];
}

abbrev fourth : CheckinClaim
fourth = record { streak_count = 4; coins_awarded = pos 10; new_balance = pos 30 }

claimed : claim client 1 172800005 before ≡ (ok fourth, after)
unfolding claim claim_body award create_checkin claim_failure find_latest next_streak
    reward_for_streak adjust_balance spend grant record_txn update_users create_coin_txn ◌+ℤ◌ neg
claimed = refl

claim-again_example : claim client 1 172900000 after ≡ (err (domain conflict none), after)
claim-again_example =
    claim-again client 1 172800005 172900000 before after fourth client-IsDocumented refl claimed

claim-promised_example :
    (s : CheckinStatus) × (get_status client 1 172800005 before ≡ (ok s, before))
    × (s.claimed_today ≡ false)
    × (s.today_reward ≡ pos 10)
    × (s.next_reward ≡ pos 10)
unfolding find_latest
claim-promised_example =
    claim-promised client 1 172800005 before after fourth client-IsDocumented
      (λ latest e. ground arith) claimed
