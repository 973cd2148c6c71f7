-- ===== src/Lib.antt =====
-- NovelHub sells the chapters of web novels. Readers hold coins, unlock chapters with them or with a
-- subscription, earn coins by checking in each day and by allowing push messages, and buy coins and
-- subscriptions through Stripe, whose webhook reports what was paid. This library models the services
-- of the API, in apps/api/src, and proves what they promise about coins, purchases and access; and the
-- libraries of the web application that keep a reader's settings and place in the browser.
--
-- The parts, and the files that model them:
--   Prelude         names passed on from the libraries; integers (Prelude/Int), Boolean tests, lists
--   Action          common/domain.errors.ts; what a service method does: it reads and writes a state
--                   and may throw, and what it wrote before a throw stays. Action/Runs and
--                   Action/Gives are the rules for composed methods
--   Prisma          the database client as the services call it, a record of operations; its
--                   documented behaviour is stated by the queries on lists in Prisma/Query
--   Schema          packages/db/prisma/schema.prisma: the rows, the unique constraints, the database
--   Ledger          when the coins are in order, and the rules by which a method keeps them so
--   Coins           modules/coins/coins.service.ts (adjustBalance, getBalance, listTransactions)
--   Catalog         the look-ups that the chapter services share; Paging is the shape of a listing
--   Unlocks         modules/unlocks/unlocks.service.ts (unlockChapter, list)
--   Chapters        modules/chapters/chapters.service.ts (readChapter, isUnlockedFor, the locked and
--                   the unlocked page, previews with their cache)
--   Checkin         modules/checkin/checkin.service.ts (getStatus, claim)
--   Notifications   modules/notifications/notifications.service.ts (grantBonus, who is reminded)
--   Payments        modules/payments: Packages is the price list of packages/shared/src/index.ts;
--                   Stripe and Checkout are payments.service.ts (createCoinCheckout,
--                   createSubscriptionCheckout, createPortalSession, getActiveSubscription,
--                   getOrderStatus); Events, Where, Orders and Webhook are webhook.service.ts
--                   (handleEvent and every handler)
--   Auth            modules/auth/auth.service.ts (register, login, loginWithGoogle, refresh,
--                   getCurrentUser, deleteAccount, forgotPassword, resetPassword)
--   Progress        modules/reading-progress/reading-progress.service.ts (save, findOne, listRecent)
--   Session         worker/middleware/auth.ts (requireAuth, requireAdmin, optionalAuth), and banUser
--                   and unbanUser of modules/admin/admin.service.ts
--   Admin           modules/admin/admin.service.ts (bulkCreateChapters, softDeleteBook,
--                   softDeleteChapter); Admin/Edit has createBook, getBook, updateBook and
--                   coverUploadUrl, and free-chapter-limit.ts beside it; Admin/Revision has
--                   getChapter and updateChapter; Admin/Import has bulkImportChapters
--   Facebook        modules/fb-capi/fb-capi.service.ts and packages/shared/src/consent.ts
--   Support         modules/support/support.service.ts (contact)
--   Books           modules/books/books.service.ts and its cache
--   Web             apps/web/src/lib: Settings is reader-settings.ts with the script that the page
--                   runs before it is drawn, Anonymous is anonymous-reading-progress.ts, Filters is
--                   novels-filters.ts, novels-canonical-redirect.ts and the redirects of
--                   apps/web/src/app/novels/page.tsx, Messages is novels-empty-reason.ts,
--                   payment-success.ts and more-like-this.ts; Json and Storage are what the
--                   browser gives them
--   System          the requests of readers and of Stripe, and bans, in any order, one after the other
--   Sample          a client that runs and a small database; the modules called Tests use them
--
-- How the parts interact: every service is a function of the database client and of the database.
-- Unlocks, Checkin, Notifications, Payments and Auth move coins through Coins.adjust_balance only,
-- or write the signup bonus beside its audit row. Chapters and Progress decide access by the rows
-- that Unlocks and the webhook write. The webhook completes the orders that a checkout stored.
--
-- What stands outside of the repository is an argument: Prisma with PostgreSQL, Stripe, password
-- hashing, tokens, Google, `fetch` and SHA-256, the URL parser of the platform, lower-casing of texts. The
-- client of the database has the hypotheses `Prisma.IsDocumented`; they say what its documentation says of each
-- query, that a transaction is undone where its body throws, and that a generated id is new.
-- `Sample.client-IsDocumented` shows a client of which they hold. The caches, the storage and the
-- publisher of purchases are interfaces of the program and are arguments too, with what a theorem
-- needs of them named in it (`Books.Fresh.IsCache`, `Books.Stale.KeepsEntries`, the counters of
-- Support). In the browser the arguments are JSON (`Web.Json.IsDocumented`), the storage
-- (`Web.Storage.IsStorage`), which may refuse a value for want of space, the reading of dates, and
-- the texts of queries and of numbers (`Web.Filters.Settles.AreDocumented`).
--
-- The choices of the model: identifiers are natural numbers, 0 the empty text; times are
-- milliseconds since the epoch and an argument of each call; coin amounts are integers without the
-- 32-bit bound of their column; the rows of a table are a list in the order of the database. Every
-- function is structural recursion, so there is no fuel and no bound.
--
-- Not modelled: the two HTTP stacks (controllers, worker routes), the listings of the
-- administration, the publishers of tracking events, mails and push messages, the pages and
-- components of the web application, migrations and scripts; and the steps of several requests
-- between one another, since each request here runs to its end before the next one.
pub mod Prelude
pub mod Action
pub mod Prisma
pub mod Schema
pub mod Paging
pub mod Coins
pub mod Facebook
pub mod Ledger
pub mod Catalog
pub mod Unlocks
pub mod Checkin
pub mod Payments
pub mod Auth
pub mod Notifications
pub mod Chapters
pub mod System
pub mod Sample
pub mod Progress
pub mod Books
pub mod Session
pub mod Admin
pub mod Web
pub mod Support
