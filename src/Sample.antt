-- ===== src/Sample.antt =====
-- A client of the database that is documented and runs, and a small database, for the tests.
use Prim.Native.Nat.{max}
use novelhub.Prelude.{
  ℕ, suc, ◌≤◌, false, true, none, some, List, [], ◌∷◌, ◌≢◌, refl, arith, All, All-map,
}
use novelhub.Prelude.Int.{pos, ◌+ℤ◌}
use novelhub.Action.{Ident, pure}
use novelhub.Prisma.{Prisma, IsDocumented, Uuid, on_lists}
use novelhub.Schema.{
  User, Book, Chapter, CoinTransaction, Order, coin_purchase, pending, signup_bonus, Db,
}
use novelhub.Ledger.{IsSound}
use novelhub.Auth.{Deps, done}
use novelhub.Payments.Stripe.{PaymentsDeps}
use novelhub.Payments.Events.{PurchaseEventPublisher}

abbrev pub top_id : {Row : Type 0} → (Row → Ident) → List Row → ℕ
top_id id [] = 0
top_id id (r ∷ rows) = max (id r) (top_id id rows)

-- One more than every id in use.
abbrev pub fresh : Uuid
fresh Row id rows = suc (top_id id rows)

top_id-le :
    {Row : Type 0} (id : Row → Ident) (rows : List Row) → All (λ r. id r ≤ top_id id rows) rows
top_id-le id [] = tt
top_id-le id (r ∷ rows) = (
  omega arith,
  All-map (λ s. id s ≤ top_id id rows) _ rows (λ s h. omega arith) (top_id-le id rows),
)

pub fresh_is_new :
    {Row : Type 0} (id : Row → Ident) (rows : List Row) → All (λ r. id r ≢ fresh Row id rows) rows
fresh_is_new id rows =
    All-map (λ r. id r ≤ top_id id rows) _ rows (λ r h e. absurd (omega arith)) (top_id-le id rows)

abbrev pub client : Prisma
client = on_lists fresh

pub client-IsDocumented : IsDocumented client
client-IsDocumented = record {
  find_first_lem = λ w rows. refl;
  find_many_lem = λ w before skip n rows. refl;
  find_all_lem = λ w rows. refl;
  count_lem = λ w rows. refl;
  aggregate_max_lem = λ f w rows. refl;
  update_many_lem = λ w f rows. refl;
  update_many_unique_lem = λ clash w f rows. refl;
  create_lem = λ clash row rows. refl;
  update_lem = λ clash w f rows. refl;
  upsert_lem = λ w row f rows. refl;
  uuid_is_new = λ id rows. fresh_is_new id rows;
  transaction_lem = λ m s. refl;
}

abbrev pub reader : User
reader = record {
  id = 1;
  email = "reader@example.com";
  password_hash = some "hash";
  google_id = none;
  stripe_customer_id = none;
  coin_balance = pos 20;
  email_verified = false;
  is_admin = false;
  banned_at = none;
  deleted_at = none;
}

abbrev pub novel : Book
novel = record {
  id = 1;
  title = "Emma";
  author = "Jane Austen";
  cover_url = "covers/emma";
  cover_image_key = none;
  description = "A novel of manners";
  category = "Classics";
  tags = [];
  status = "COMPLETED";
  is_featured = true;
  total_chapters = 2;
  free_chapter_count = 1;
  coin_per_chapter = pos 5;
  created_at = 0;
  deleted_at = none;
}

abbrev pub opening : Chapter
opening = record {
  id = 1;
  book_id = 1;
  order = 1;
  title = "One";
  content_url = "chapters/1/1.txt";
  word_count = 100;
  is_free = true;
  deleted_at = none;
}

abbrev pub second : Chapter
second = record opening { id = 2; order = 2; title = "Two"; is_free = false }

abbrev pub bonus : CoinTransaction
bonus = record {
  id = 1;
  user_id = 1;
  amount = pos 20;
  type = signup_bonus;
  related_id = none;
  balance_after = pos 20;
  created_at = 0;
}

-- A paid session of 50 coins that Stripe has not reported yet.
abbrev pub open_order : Order
open_order = record {
  id = 1;
  user_id = 1;
  stripe_session_id = 7;
  stripe_payment_intent = none;
  type = coin_purchase;
  amount = 499;
  currency = "usd";
  coins_granted = some (pos 50);
  status = pending;
  completed_at = none;
}

abbrev pub library : Db
library = record {
  users = reader ∷ [];
  books = novel ∷ [];
  chapters = opening ∷ second ∷ [];
  unlocks = [];
  coin_txns = bonus ∷ [];
  subscriptions = [];
  orders = open_order ∷ [];
  checkins = [];
  webhook_events = [];
  progress = [];
}

pub library-IsSound : IsSound library
unfolding ◌+ℤ◌
library-IsSound = record {
  unique = (tt, tt);
  balanced = (refl, tt);
  covered = (omega arith, tt);
  audited = (refl, tt);
  owned = ((λ e. cc), tt);
}

-- `NoopPurchaseEventPublisher`
abbrev pub silent : PurchaseEventPublisher
silent = record { publish = λ p. pure tt }

-- Stripe with a session ready.
abbrev pub shop : PaymentsDeps
shop = record {
  stripe = some (record {
    create_checkout = λ _. some (record { id = 8; url = some "https://checkout.example/8" });
    create_portal = λ _ _. none;
  });
  app_url = "https://novels.example";
  subscription_price_ids = record { weekly = some 21; monthly = some 22 };
  new_url = λ _ _. none;
  encode_uri_component = λ s. s;
}

-- Sign-in without the services outside.
abbrev pub offline : Deps
offline = record {
  normalize_email = λ s. s;
  hash = λ s. s;
  compare = λ s t. false;
  sign_access = λ id email. id;
  sign_refresh = λ id. id;
  verify_refresh = λ t. none;
  verify_reset = λ t. none;
  google_configured = false;
  verify_google = λ t. none;
  stripe_configured = false;
  cancel_subscription = λ id. done;
}
