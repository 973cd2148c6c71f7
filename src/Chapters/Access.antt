-- ===== src/Chapters/Access.antt =====
-- `readChapter` of chapters.service.ts beside `unlockChapter` of unlocks.service.ts.
use Prim.Native.String.{String}
use novelhub.Prelude.{ℕ, true, false, Option, none, some, ◌≡◌, refl, arith, inl, inr, Option-cases}
use novelhub.Prelude.Int.{ℤ, pos, ◌<ℤ◌, leb_ℤ, ltb_ℤ}
use novelhub.Action.{Ident, ok, err, domain, payment_required}
use novelhub.Prisma.{Prisma, IsDocumented, Uuid, on_lists, uuid_of, eq_on_lists, first}
use novelhub.Prisma.Rows.{first-holds}
use novelhub.Schema.{Book, Chapter, User, Db, has_id, is_live}
use novelhub.Catalog.{find_chapter, find_unlock, is_stored_chapter, has_active_subscription}
use novelhub.Ledger.{HaveUniqueIds}
use novelhub.Unlocks.{UnlockResponse, response, unlock_chapter}
use novelhub.Unlocks.Again.{unlock_chapter_gives}
use novelhub.Unlocks.Charge.{charged, unlock_row, unlock_chapter-covered, unlock_chapter-short}
use novelhub.Chapters.{
  CacheClient, StorageClient, UnlockOptions, LockedChapter, unlocked, locked, read_chapter,
  read_found, build_unlocked, is_unlocked_for, has_chapter_unlock, unlock_options, get_coin_balance,
  build_locked, preview_for, preview_of,
}

find_chapter_id :
    (uuid : Uuid) (chapter_id : Ident) (db : Db) (c : Chapter) (b : Book)
    → find_chapter (on_lists uuid) chapter_id db ≡ (ok (c, b), db)
    → c.id ≡ chapter_id
unfolding find_chapter
find_chapter_id uuid chapter_id db c b e =
    ground (arith, first-holds (is_stored_chapter chapter_id) db.chapters c)

module _ {K : Type 0} (cache : CacheClient K) (storage : StorageClient) (prisma : Prisma) where
  read_open :
      (chapter_id : Ident) (reader : Option Ident) (now : ℕ) (db : Db) (k : K) (c : Chapter)
      (b : Book)
      → find_chapter prisma chapter_id db ≡ (ok (c, b), db)
      → is_unlocked_for prisma c reader now db ≡ true
      → read_chapter prisma cache storage chapter_id reader now (db, k)
        ≡ (ok (unlocked (build_unlocked prisma storage c db)), (db, k))
  unfolding read_chapter read_found
  read_open chapter_id reader now db k c b f u = ground arith

  -- What a reader without access gets.
  abbrev IsShut : Ident → Option Ident → ℕ → Db → K → Chapter → Book → Type 0
  IsShut chapter_id reader now db k c b =
      (preview : String) × (k' : K) × (read_chapter prisma cache storage chapter_id reader now
          (db, k)
        ≡ (ok (locked (build_locked prisma preview c b reader now db)), (db, k')))

  read-IsShut :
      (chapter_id : Ident) (reader : Option Ident) (now : ℕ) (db : Db) (k : K) (c : Chapter)
      (b : Book)
      → find_chapter prisma chapter_id db ≡ (ok (c, b), db)
      → is_unlocked_for prisma c reader now db ≡ false
      → IsShut chapter_id reader now db k c b
  unfolding read_chapter read_found preview_for
  read-IsShut chapter_id reader now db k c b f u = elim (Option-cases (cache.get c.id k)) [
    | inl e ↦
        let preview = preview_of (storage.get_text c.content_url) in
        (preview, cache.set c.id preview k, ground arith)
    | inr (cached, e) ↦ (cached, k, ground arith)
  ]

  module _ (user_id : Ident) (now : ℕ) (db : Db) (c : Chapter) where
    owner_reads :
        has_chapter_unlock prisma user_id c.id db ≡ true
        → is_unlocked_for prisma c (some user_id) now db ≡ true
    unfolding is_unlocked_for
    owner_reads h = ground arith

    shut_means :
        is_unlocked_for prisma c (some user_id) now db ≡ false
        → (c.is_free ≡ false)
          × (has_active_subscription prisma user_id now db ≡ false)
          × (find_unlock prisma user_id c.id db ≡ none)
    unfolding is_unlocked_for has_chapter_unlock
    shut_means h = (ground arith, ground arith, ground arith)

    shut_options :
        (cost : ℤ)
        → is_unlocked_for prisma c (some user_id) now db ≡ false
        → (unlock_options prisma cost (some user_id) now db).can_unlock_with_subscription ≡ false
    unfolding unlock_options
    shut_options cost h = (shut_means h).1

offered_on_lists :
    (uuid : Uuid) (user_id : Ident) (now : ℕ) (db : Db) (u : User) (cost : ℤ)
    → first (has_id user_id) db.users ≡ some u
    → is_live u ≡ true
    → let o : UnlockOptions = unlock_options (on_lists uuid) cost (some user_id) now db in
      (o.can_unlock_with_coins ≡ true → leb_ℤ cost u.coin_balance ≡ true)
      × (o.can_unlock_with_coins ≡ false → ltb_ℤ u.coin_balance cost ≡ true)
unfolding unlock_options get_coin_balance
offered_on_lists uuid user_id now db u cost e l = ((λ h. ground arith), (λ h. ground arith))

offered :
    (prisma : Prisma) (user_id : Ident) (now : ℕ) (db : Db) (u : User) (cost : ℤ)
    → IsDocumented prisma
    → first (has_id user_id) db.users ≡ some u
    → is_live u ≡ true
    → let o : UnlockOptions = unlock_options prisma cost (some user_id) now db in
      (o.can_unlock_with_coins ≡ true → leb_ℤ cost u.coin_balance ≡ true)
      × (o.can_unlock_with_coins ≡ false → ltb_ℤ u.coin_balance cost ≡ true)
offered prisma user_id now db u cost doc =
    rw (eq_on_lists prisma doc) (offered_on_lists (uuid_of prisma) user_id now db u cost)

-- Once a user has unlocked a chapter that is stored, its page is open to that user, at any later
-- time: the answer is the chapter itself, and nothing is changed.
pub unlock_chapter-read :
    {K : Type 0} (cache : CacheClient K) (storage : StorageClient) (prisma : Prisma)
    (user_id chapter_id now later : Ident) (db db' : Db) (k : K) (r : UnlockResponse) (c : Chapter)
    (b : Book)
    → IsDocumented prisma
    → unlock_chapter prisma user_id chapter_id now db ≡ (ok r, db')
    → find_chapter prisma chapter_id db' ≡ (ok (c, b), db')
    → read_chapter prisma cache storage chapter_id (some user_id) later (db', k)
      ≡ (ok (unlocked (build_unlocked prisma storage c db')), (db', k))
unlock_chapter-read cache storage prisma user_id chapter_id now later db db' k r c b doc =
    rw (eq_on_lists prisma doc) λ e f.
      let (u, found, same) =
        unlock_chapter_gives (uuid_of prisma) user_id now chapter_id db db' r e in
      let is_it = find_chapter_id (uuid_of prisma) chapter_id db' c b f in
      let owned : has_chapter_unlock (on_lists (uuid_of prisma)) user_id c.id db' ≡ true =
        unfold has_chapter_unlock in rw (is_it, found) refl in
      read_open cache storage (on_lists (uuid_of prisma)) chapter_id (some user_id) later db' k c b
        f (owner_reads cache storage (on_lists (uuid_of prisma)) user_id later db' c owned)

-- What the locked page of a chapter with a price offers a live user with a unique id is what
-- unlocking then does: it never offers the subscription; where it offers the coins, unlocking
-- succeeds and takes exactly the price; where it does not, unlocking is refused with the 402 of the
-- paywall and changes nothing.
pub read_chapter-offers :
    {K : Type 0} (cache : CacheClient K) (storage : StorageClient) (prisma : Prisma)
    (user_id now : Ident) (db : Db) (k : K) (u : User) (c : Chapter) (b : Book)
    → IsDocumented prisma
    → HaveUniqueIds db.users
    → first (has_id user_id) db.users ≡ some u
    → is_live u ≡ true
    → pos 0 <ℤ b.coin_per_chapter
    → find_chapter prisma c.id db ≡ (ok (c, b), db)
    → is_unlocked_for prisma c (some user_id) now db ≡ false
    → (page : LockedChapter) × (k' : K) × (read_chapter prisma cache storage c.id
          (some user_id)
          now
          (db, k)
        ≡ (ok (locked page), (db, k')))
      × (page.unlock_options.can_unlock_with_subscription ≡ false)
      × (page.unlock_options.can_unlock_with_coins ≡ true
          → unlock_chapter prisma user_id c.id now db ≡ (
            ok (response (unlock_row (uuid_of prisma) user_id c.id now db) c.book_id),
            charged (uuid_of prisma) user_id c.id b.coin_per_chapter now u db,
          ))
      × (page.unlock_options.can_unlock_with_coins ≡ false
          → unlock_chapter prisma user_id c.id now db ≡ (
            err (
                domain payment_required (
                  some (record {
                    chapter_id = c.id;
                    coin_cost = b.coin_per_chapter;
                    current_balance = u.coin_balance;
                  }))),
            db,
          ))
read_chapter-offers cache storage prisma user_id now db k u c b doc unique e l p f shut =
    let (preview, k', page) =
      read-IsShut cache storage prisma c.id (some user_id) now db k c b f shut in
    let (free, sub, fn) = shut_means cache storage prisma user_id now db c shut in
    let (yes_coins, no_coins) = offered prisma user_id now db u b.coin_per_chapter doc e l in
    (
      build_locked prisma preview c b (some user_id) now db,
      k',
      page,
      unfold build_locked in
          shut_options cache storage prisma user_id now db c b.coin_per_chapter shut,
      (λ q.
          unlock_chapter-covered prisma user_id now db u c b doc unique e l free p
            (yes_coins (unfold build_locked in q)) f sub fn),
      (λ q.
          unlock_chapter-short prisma user_id c.id now db u c b doc unique e l free p
            (no_coins (unfold build_locked in q)) f sub fn),
    )
