-- ===== src/Notifications/Tests.antt =====
-- The push reward in a small database.
use novelhub.Prelude.{◌*◌, ◌-◌, All, none, some, ◌∷◌, [], ◌≡◌, refl, true}
use novelhub.Prelude.Int.{pos, ◌+ℤ◌, neg}
use novelhub.Action.{ok}
use novelhub.Schema.{push_reward, Db}
use novelhub.Sample.{client, client-IsDocumented, library, reader, bonus}
use novelhub.Coins.{adjust_balance, spend, grant, record_txn, update_users, create_coin_txn}
use novelhub.Notifications.{
  granted, already_granted, grant_bonus, grant_body, grant_failure, hour_ms, target_of,
  collect_targets, book_title, chapter_order, find_users_for_re_engagement,
}
use novelhub.Notifications.Once.{grant_bonus-again}
use novelhub.Notifications.Reminded.{
  AreDistinct, IsIdleSince, find_users_for_re_engagement-AreDistinct,
}

abbrev after : Db
after = record library {
  users = record reader { coin_balance = pos 30 } ∷ [];
  coin_txns =
      bonus
      ∷ record {
        id = 2;
        user_id = 1;
        amount = pos 10;
        type = push_reward;
        related_id = none;
        balance_after = pos 30;
        created_at = 9;
      }
      ∷ [];
}

rewarded : grant_bonus client true 1 9 library ≡ (ok (granted (pos 30)), after)
unfolding grant_bonus grant_body grant_failure adjust_balance spend grant record_txn update_users
    create_coin_txn ◌+ℤ◌ neg
rewarded = refl

grant_bonus-again_example : grant_bonus client true 1 12 after ≡ (ok already_granted, after)
grant_bonus-again_example =
    grant_bonus-again client true 1 9 12 library after (pos 30) client-IsDocumented rewarded

-- Two chapters that the reader left on the day before.
abbrev left_off : Db
left_off = record library {
  progress =
      record {
        id = 1;
        user_id = some 1;
        book_id = 1;
        chapter_id = 1;
        scroll_position = 40;
        last_read_at = 73 * hour_ms;
        updated_at = 73 * hour_ms;
      }
      ∷ record {
        id = 2;
        user_id = some 1;
        book_id = 1;
        chapter_id = 2;
        scroll_position = 5;
        last_read_at = 74 * hour_ms;
        updated_at = 74 * hour_ms;
      }
      ∷ [];
}

reminded :
    find_users_for_re_engagement client (100 * hour_ms) left_off
    ≡ record { user_id = 1; book_id = 1; book_title = "Emma"; chapter_number = 2 } ∷ []
unfolding find_users_for_re_engagement collect_targets target_of book_title chapter_order
reminded = refl

find_users_for_re_engagement-AreDistinct_example :
    AreDistinct (find_users_for_re_engagement client (100 * hour_ms) left_off)
    × All
        (IsIdleSince (100 * hour_ms - 24 * hour_ms) left_off)
        (find_users_for_re_engagement client (100 * hour_ms) left_off)
find_users_for_re_engagement-AreDistinct_example =
    find_users_for_re_engagement-AreDistinct client client-IsDocumented (100 * hour_ms) left_off
