-- ===== src/Catalog.antt =====
-- What the chapter services read of the catalogue and of the subscriptions.
use novelhub.Prelude.{ℕ, Bool, true, false, Option, none, ltb, ◌==◌, ◌&&◌, is_none, is_some}
use novelhub.Action.{Ident, domain, not_found, other, pure, gets, or_throw, throw_if, ◌>>=◌, ◌>>◌}
use novelhub.Prisma.{Prisma}
use novelhub.Schema.{
  Action, Book, Chapter, ChapterUnlock, Subscription, SubscriptionStatus, active, past_due,
  canceled, Db,
}

-- `SUBSCRIPTION_ACTIVE_STATUSES.includes(status)`
abbrev pub is_active_status : SubscriptionStatus → Bool
is_active_status active = true
is_active_status past_due = true
is_active_status canceled = true
is_active_status _ = false

-- The `where` of `hasActiveSubscription`, at the time `now`.
abbrev pub is_active_for : Ident → ℕ → Subscription → Bool
is_active_for user_id now s =
    s.user_id == user_id && (is_active_status s.status && ltb now s.current_period_end)

abbrev pub is_chapter : Ident → Chapter → Bool
is_chapter id c = c.id == id

-- `{ id: chapterId, deletedAt: null }`
abbrev pub is_stored_chapter : Ident → Chapter → Bool
is_stored_chapter id c = c.id == id && is_none c.deleted_at

abbrev pub is_book : Ident → Book → Bool
is_book id b = b.id == id

-- `{ userId_chapterId: { userId, chapterId } }`
abbrev pub is_unlock_of : Ident → Ident → ChapterUnlock → Bool
is_unlock_of user_id chapter_id u = u.user_id == user_id && u.chapter_id == chapter_id

module _ (prisma : Prisma) where
  unfoldable pub has_active_subscription : Ident → ℕ → Db → Bool
  has_active_subscription user_id now db =
      is_some (prisma.find_first (is_active_for user_id now) db.subscriptions)

  unfoldable pub find_unlock : Ident → Ident → Db → Option ChapterUnlock
  find_unlock user_id chapter_id db = prisma.find_first (is_unlock_of user_id chapter_id) db.unlocks

  -- The chapter with its book (`include: { book }`), or the 404 of both `unlockChapter` and
  -- `readChapter`. The schema's foreign key gives every chapter a book.
  unfoldable pub find_chapter : Ident → Action (Chapter × Book)
  find_chapter chapter_id = do
    chapter ←
        or_throw (← gets (λ db. prisma.find_first (is_stored_chapter chapter_id) db.chapters))
          (domain not_found none)
    book ← or_throw (← gets (λ db. prisma.find_first (is_book chapter.book_id) db.books)) other
    throw_if (is_some book.deleted_at) (domain not_found none)
    pure (chapter, book)
