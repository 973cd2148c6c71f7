-- ===== src/Payments/Tests.antt =====
-- Deliveries of Stripe's events in a small database.

use novelhub.Prelude.{none, some, ◌∷◌, [], ◌≡◌, ◌≢◌, refl, true, arith}
use novelhub.Prelude.Int.{pos, ◌+ℤ◌, neg}
use novelhub.Action.{Ident, ok, err, domain, not_found}
use novelhub.Schema.{coin_purchase, completed, purchase, Order, Db}
use novelhub.Sample.{
  shop, client, client-IsDocumented, library, library-IsSound, reader, bonus, open_order, silent,
}
use novelhub.Coins.{adjust_balance, spend, grant, record_txn, update_users, create_coin_txn}
use novelhub.Payments.Packages.{CoinPackage, coin_packages, pack_50}
use novelhub.Payments.Events.{Session, Event, checkout_completed}
use novelhub.Payments.Orders.{
  Grant, settle_order, create_order, complete_pending, find_order, grant_order, recover_order,
}
use novelhub.Payments.Webhook.{receive}
use novelhub.Payments.Stripe.{Checkout}
use novelhub.Payments.Checkout.{
  create_coin_checkout, require_user, persist_pending_order, success_url, is_safe_reader_return_url,
  get_order_status,
}
use novelhub.Payments.Opened.{IsNew, opened_summary, create_coin_checkout-get_order_status}
use novelhub.Payments.Purchase.{IsPaid, create_coin_checkout-settle_order}
use novelhub.Payments.Again.{receive-again}
use novelhub.Payments.Settle.{settle_order-again}

abbrev session : Session
session = record {
  id = 7;
  user_id = some 1;
  order_type = some coin_purchase;
  package_id = some pack_50;
  customer = some 4;
  payment_intent = some 5;
  amount_total = some 499;
  currency = some "usd";
}

abbrev paid_order : Order
paid_order = record open_order {
  status = completed;
  completed_at = some 9;
  stripe_payment_intent = some 5;
}

abbrev after : Db
after = record library {
  users = record reader { coin_balance = pos 70 } ∷ [];
  coin_txns =
      bonus
      ∷ record {
        id = 2;
        user_id = 1;
        amount = pos 50;
        type = purchase;
        related_id = some 1;
        balance_after = pos 70;
        created_at = 9;
      }
      ∷ [];
  orders = paid_order ∷ [];
}

abbrev fifty : Grant
fifty = record { order_id = 1; coins_granted = pos 50; amount_minor = 499; currency = "usd" }

settled : settle_order client (λ s. s) session 1 pack_50 9 library ≡ (ok (some fifty), after)
unfolding settle_order complete_pending find_order grant_order recover_order adjust_balance spend
    grant record_txn update_users create_coin_txn ◌+ℤ◌ neg
settled = refl

settle_order-again_example :
    settle_order client (λ s. s) session 1 pack_50 12 after ≡ (ok none, after)
settle_order-again_example =
    settle_order-again client (λ s. s) session 1 pack_50 9 12 library after fifty
      client-IsDocumented settled

abbrev event : Event
event = record { id = 11; type = 1; object = checkout_completed session }

receive-again_example :
    receive client silent (λ s. s) event 12 (receive client silent (λ s. s) event 9 library).1 ≡ (
      ok (record { type = 1; duplicate = true }),
      (receive client silent (λ s. s) event 9 library).1,
    )
receive-again_example =
    receive-again client silent (λ s. s) event 9 12 library client-IsDocumented
      (λ p. record { at = λ db h. h })

abbrev opened_checkout : Checkout
opened_checkout = record { url = "https://checkout.example/8"; session_id = 8 }

abbrev opened_db : Db
opened_db = record library {
  orders = open_order ∷ record open_order { id = 2; stripe_session_id = 8 } ∷ [];
}

starts : create_coin_checkout shop client 1 pack_50 none library ≡ (ok opened_checkout, opened_db)
unfolding create_coin_checkout require_user persist_pending_order create_order success_url
    is_safe_reader_return_url
starts = refl

IsNew-session : IsNew 8 (some 5) library.orders
IsNew-session = (((λ e. absurd (ground arith)), refl), tt)

create_coin_checkout-settle_order_example :
    IsPaid client (λ s. s) (record session { id = 8 }) 1 pack_50 9 library opened_db
create_coin_checkout-settle_order_example =
    create_coin_checkout-settle_order shop client (λ s. s) (record session { id = 8 }) 1 pack_50
      none 9 library opened_db opened_checkout client-IsDocumented library-IsSound.unique
      IsNew-session refl starts

create_coin_checkout-get_order_status_example :
    (pkg : CoinPackage) × (coin_packages pack_50 ≡ some pkg)
    × (get_order_status client 1 8 opened_db ≡ (ok (opened_summary pkg), opened_db))
    × ((other_id : Ident)
        → other_id ≢ 1
        → get_order_status client other_id 8 opened_db ≡ (err (domain not_found none), opened_db))
create_coin_checkout-get_order_status_example =
    create_coin_checkout-get_order_status shop client 1 pack_50 none library opened_db
      opened_checkout client-IsDocumented (((λ e. absurd (ground arith)), refl), tt) starts
