-- ===== src/Coins/Tests.antt =====
-- Adjustments (coins.service.ts) of a small database.
use novelhub.Prelude.{none, some, [], ◌∷◌, ◌≡◌, refl}
use novelhub.Prelude.Int.{pos, negsuc, ◌+ℤ◌, neg}
use novelhub.Action.{err, insufficient_balance, unique_violation}
use novelhub.Schema.{refund, purchase, push_reward, Db}
use novelhub.Sample.{client, client-IsDocumented, fresh, library, library-IsSound, reader}
use novelhub.Coins.{adjust_balance, spend, grant, record_txn, update_users, create_coin_txn}
use novelhub.Coins.Adjust.{adjusted, adjust_balance-adjusted}

abbrev rewarded : Db
rewarded = record library {
  coin_txns =
      record {
        id = 5;
        user_id = 1;
        amount = pos 20;
        type = push_reward;
        related_id = none;
        balance_after = pos 20;
        created_at = 1;
      }
      ∷ [];
}

adjust_balance-adjusted_example :
    adjust_balance client 1 (pos 50) purchase (some 1) 9 library
    ≡ adjusted fresh 1 (pos 50) purchase (some 1) 9 library (some reader)
adjust_balance-adjusted_example =
    adjust_balance-adjusted client 1 (pos 50) purchase (some 1) 9 library client-IsDocumented
      library-IsSound.unique

-- A debit beyond the balance.
refund_too_much :
    adjust_balance client 1 (negsuc 49) refund none 9 library
    ≡ (err (insufficient_balance (pos 50) (pos 20)), library)
unfolding adjust_balance spend grant record_txn update_users create_coin_txn neg ◌+ℤ◌
refund_too_much = refl

-- The balance moves although the second reward is refused.
second_reward :
    (adjusted fresh 1 (pos 20) push_reward none 9 rewarded (some reader)).0 ≡ err unique_violation
second_reward = refl
