-- ===== src/System/Reach.antt =====
-- The coin ledger over runs of requests.
use novelhub.Prisma.{Prisma, IsDocumented, Uuid, on_lists, uuid_of, transfer}
use novelhub.Schema.{Db}
use novelhub.Ledger.{IsSound}
use novelhub.Ledger.Keeps.{Keeps}
use novelhub.Unlocks.Sound.{unlock_chapter-Keeps}
use novelhub.Checkin.Sound.{claim-Keeps}
use novelhub.Notifications.Sound.{grant_bonus-Keeps}
use novelhub.Payments.Events.{PurchaseEvent}
use novelhub.Payments.Sound.{handle_event-Keeps}
use novelhub.Payments.Quiet.{create_coin_checkout-Keeps, create_subscription_checkout-Keeps}
use novelhub.Session.Sound.{ban_user-Keeps, unban_user-Keeps}
use novelhub.Progress.Sound.{save-Keeps}
use novelhub.Auth.Sound.{
  register-Keeps, login_with_google-Keeps, delete_account-Keeps, reset_password-Keeps,
}
use novelhub.System.{
  Request, unlock_request, claim_request, bonus_request, stripe_request, register_request,
  google_request, delete_request, reset_request, checkout_request, subscribe_request,
  progress_request, ban_request, unban_request, Config, serve, Reaches, start, then_serve,
}

module _ (config : Config)
    (quiet : (p : PurchaseEvent) → Keeps IsSound (config.publisher.publish p)) where
  serve-on_lists :
      (uuid : Uuid) (r : Request) (db : Db)
      → IsSound db
      → IsSound (serve (on_lists uuid) config r db)
  unfolding serve
  serve-on_lists uuid (unlock_request u c now) db s = (unlock_chapter-Keeps uuid u c now).at db s
  serve-on_lists uuid (claim_request u now) db s = (claim-Keeps uuid u now).at db s
  serve-on_lists uuid (bonus_request b u now) db s = (grant_bonus-Keeps uuid b u now).at db s
  serve-on_lists uuid (stripe_request body signature now) db s =
      (handle_event-Keeps uuid config.to_lower_case config.publisher quiet config.construct_event
          config.webhook_secret body signature now).at
        db s
  serve-on_lists uuid (register_request e p now) db s =
      (register-Keeps uuid config.deps e p now).at db s
  serve-on_lists uuid (google_request t now) db s =
      (login_with_google-Keeps uuid config.deps t now).at db s
  serve-on_lists uuid (delete_request u p now) db s =
      (delete_account-Keeps uuid config.deps u p now).at db s
  serve-on_lists uuid (reset_request t p) db s = (reset_password-Keeps uuid config.deps t p).at db s
  serve-on_lists uuid (checkout_request u p r) db s =
      (create_coin_checkout-Keeps config.payments uuid u p r).at db s
  serve-on_lists uuid (subscribe_request u p r) db s =
      (create_subscription_checkout-Keeps config.payments uuid u p r).at db s
  serve-on_lists uuid (progress_request u c scroll now) db s =
      (save-Keeps uuid u c scroll now).at db s
  serve-on_lists uuid (ban_request id now) db s = (ban_user-Keeps uuid id now).at db s
  serve-on_lists uuid (unban_request id) db s = (unban_user-Keeps uuid id).at db s

  -- Where publishing a purchase keeps the ledger sound, every request keeps it sound, whether it
  -- is answered or fails: ids of users are unique, every balance is zero or more and the sum of
  -- the user's audit rows, and every audit row states the balance that it left.
  pub serve-IsSound :
      (prisma : Prisma) (r : Request) (db : Db)
      → IsDocumented prisma
      → IsSound db
      → IsSound (serve prisma config r db)
  serve-IsSound prisma r db doc s =
      transfer (λ p. IsSound (serve p config r db)) prisma doc
        (serve-on_lists (uuid_of prisma) r db s)

  -- Where publishing a purchase keeps the ledger sound, it is sound in every database that
  -- requests lead to from one in which it is.
  pub Reaches-IsSound :
      (prisma : Prisma) {db db' : Db}
      → IsDocumented prisma
      → Reaches prisma config db db'
      → IsSound db
      → IsSound db'
  Reaches-IsSound prisma doc (start db) s = s
  Reaches-IsSound prisma doc (then_serve {db' = db'} run r) s =
      serve-IsSound prisma r db' doc (Reaches-IsSound prisma doc run s)
