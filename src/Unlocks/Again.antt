-- ===== src/Unlocks/Again.antt =====
-- `unlockChapter` of unlocks.service.ts, asked for again.
use mathlib.Core.Path.{subst}
use novelhub.Prelude.{ℕ, none, some, List, [], ◌∷◌, ◌++◌, ◌≡◌, refl, arith, inl, inr, Option-cases}
use novelhub.Prelude.Int.{ℤ}
use novelhub.Action.{Ident, Error, ok, unique_violation}
use novelhub.Action.Gives.{
  Gives, gives-ok, Gives-of_result, Gives-if, Gives-commit, Gives-catch, Gives-bind, Gives-map,
  Gives-where,
}
use novelhub.Prisma.{Prisma, IsDocumented, Uuid, on_lists, uuid_of, eq_on_lists, first}
use novelhub.Prisma.Rows.{first-holds, first-last}
use novelhub.Schema.{Book, Chapter, ChapterUnlock, UnlockMethod, subscription, unlock_clash, Db}
use novelhub.Catalog.{find_unlock, find_chapter, is_unlock_of, is_stored_chapter, is_chapter}
use novelhub.Unlocks.{
  UnlockResponse, response, book_id_of, create_unlock, coin_failure, spend_and_unlock,
  unlock_by_coins, unlock_by_subscription, unlock_found, unlock_new, unlock_from, unlock_chapter,
}

-- The unlock that the answer speaks of is stored.
abbrev pub IsStoredAs : Uuid → Ident → Ident → UnlockResponse → Db → Type 0
IsStoredAs uuid user_id chapter_id r db =
    (u : ChapterUnlock) × (find_unlock (on_lists uuid) user_id chapter_id db ≡ some u)
    × (r ≡ response u r.book_id)

abbrev IsFound : Uuid → Ident → Ident → ChapterUnlock → Db → Type 0
IsFound uuid user_id chapter_id u db = find_unlock (on_lists uuid) user_id chapter_id db ≡ some u

no_clash-none :
    (u : ChapterUnlock) (unlocks : List ChapterUnlock)
    → first (unlock_clash u) unlocks ≡ none
    → first (is_unlock_of u.user_id u.chapter_id) unlocks ≡ none
no_clash-none u [] e = refl
no_clash-none u (v ∷ unlocks) e = ground (arith, no_clash-none u unlocks)

module _ (uuid : Uuid) (user_id chapter_id : Ident) where
  module _ (method : UnlockMethod) (now : ℕ) where
    abbrev row : Db → ChapterUnlock
    row db = record {
      id = uuid ChapterUnlock (λ v. v.id) db.unlocks;
      user_id = user_id;
      chapter_id = chapter_id;
      method = method;
      unlocked_at = now;
    }

    create_unlock_returns :
        (db db' : Db) (u : ChapterUnlock)
        → create_unlock (on_lists uuid) user_id chapter_id method now db ≡ (ok u, db')
        → (first (unlock_clash (row db)) db.unlocks ≡ none)
          × (u ≡ row db)
          × (db'.unlocks ≡ db.unlocks ++ row db ∷ [])
    unfolding create_unlock
    create_unlock_returns db db' u e = ground arith

    create_unlock-Gives :
        Gives
          (IsFound uuid user_id chapter_id)
          (create_unlock (on_lists uuid) user_id chapter_id method now)
    unfolding find_unlock
    create_unlock-Gives = Gives-of_result _ λ db db' u e.
        let (new, is_row, after) = create_unlock_returns db db' u e in
        rw (after, is_row)
          (first-last (is_unlock_of user_id chapter_id) db.unlocks (row db)
            (no_clash-none (row db) db.unlocks new) (ground arith))

  spend-Gives :
      (cost : ℤ) (now : ℕ)
      → Gives
          (IsFound uuid user_id chapter_id)
          (spend_and_unlock (on_lists uuid) user_id chapter_id cost now)
  unfolding spend_and_unlock
  spend-Gives cost now = search (Gives-bind, create_unlock-Gives)

  coin_failure-Gives :
      (book_id : Ident) (e : Error)
      → Gives
          (IsStoredAs uuid user_id chapter_id)
          (coin_failure (on_lists uuid) user_id chapter_id book_id e)
  unfolding coin_failure
  coin_failure-Gives book_id unique_violation = Gives-of_result _ λ db db' r e.
      elim (Option-cases (find_unlock (on_lists uuid) user_id chapter_id db)) [
        | inl n ↦ absurd (ground arith)
        | inr (u, n) ↦ (u, ground arith, ground arith)
      ]
  coin_failure-Gives book_id e = record { at = λ db. tt }

  answered :
      (u : ChapterUnlock) (book_id : Ident) (db : Db)
      → IsFound uuid user_id chapter_id u db
      → IsStoredAs uuid user_id chapter_id (response u book_id) db
  answered u book_id db e = (u, e, refl)

module _ (uuid : Uuid) (user_id : Ident) (now : ℕ) where
  by_coins-Gives :
      (c : Chapter) (b : Book)
      → Gives (IsStoredAs uuid user_id c.id) (unlock_by_coins (on_lists uuid) user_id c b now)
  unfolding unlock_by_coins
  by_coins-Gives c b =
      Gives-catch _ _
        (Gives-map _ _ (Gives-commit _ (spend-Gives uuid user_id c.id b.coin_per_chapter now))
          (λ u db e. answered uuid user_id c.id u c.book_id db e))
        (coin_failure-Gives uuid user_id c.id c.book_id)

  by_subscription-Gives :
      (c : Chapter)
      → Gives (IsStoredAs uuid user_id c.id) (unlock_by_subscription (on_lists uuid) user_id c now)
  unfolding unlock_by_subscription
  by_subscription-Gives c =
      Gives-map _ _ (create_unlock-Gives uuid user_id c.id subscription now)
        (λ u db e. answered uuid user_id c.id u c.book_id db e)

  found-Gives :
      (found : Chapter × Book)
      → Gives (IsStoredAs uuid user_id found.0.id) (unlock_found (on_lists uuid) user_id now found)
  unfolding unlock_found
  found-Gives (c, b) = search (Gives-bind, Gives-if, by_coins-Gives, by_subscription-Gives) depth 7

  find_chapter-Gives :
      (chapter_id : Ident)
      → Gives
          (λ (found : Chapter × Book) _. found.0.id ≡ chapter_id)
          (find_chapter (on_lists uuid) chapter_id)
  unfolding find_chapter
  find_chapter-Gives chapter_id = Gives-of_result _ λ db db' found e.
      ground (arith, first-holds (is_stored_chapter chapter_id) db.chapters found.0)

  new-Gives :
      (chapter_id : Ident)
      → Gives
          (IsStoredAs uuid user_id chapter_id)
          (unlock_new (on_lists uuid) user_id chapter_id now)
  unfolding unlock_new
  new-Gives chapter_id =
      Gives-where _ (unlock_found (on_lists uuid) user_id now) (find_chapter-Gives chapter_id)
        (λ found e.
          subst
            (λ id.
              Gives (IsStoredAs uuid user_id id) (unlock_found (on_lists uuid) user_id now found))
            e (found-Gives found))

  pub unlock_chapter_gives :
      (chapter_id : Ident) (db db' : Db) (r : UnlockResponse)
      → unlock_chapter (on_lists uuid) user_id chapter_id now db ≡ (ok r, db')
      → IsStoredAs uuid user_id chapter_id r db'
  unfolding unlock_chapter unlock_from
  unlock_chapter_gives chapter_id db db' r e =
      elim (Option-cases (find_unlock (on_lists uuid) user_id chapter_id db)) [
        | inl n ↦
            gives-ok (unlock_new (on_lists uuid) user_id chapter_id now) (new-Gives chapter_id)
              (rw n at e)
        | inr (u, n) ↦ (u, ground arith, ground arith)
      ]

  again_on_lists :
      (later chapter_id : Ident) (db db' : Db) (r : UnlockResponse)
      → unlock_chapter (on_lists uuid) user_id chapter_id now db ≡ (ok r, db')
      → (book_id : Ident) × (unlock_chapter (on_lists uuid) user_id chapter_id later db'
          ≡ (ok (record r { book_id = book_id }), db'))
  unfolding unlock_chapter unlock_from
  again_on_lists later chapter_id db db' r e =
      let (u, n, s) = unlock_chapter_gives chapter_id db db' r e in
      (book_id_of (first (is_chapter chapter_id) db'.chapters), ground arith)

-- Once `unlockChapter` has returned, a second call at any time answers with the same unlock (the
-- book's id is looked up afresh) and leaves the whole database as it is.
pub unlock_chapter-again :
    (prisma : Prisma) (user_id chapter_id now later : Ident) (db db' : Db) (r : UnlockResponse)
    → IsDocumented prisma
    → unlock_chapter prisma user_id chapter_id now db ≡ (ok r, db')
    → (book_id : Ident) × (unlock_chapter prisma user_id chapter_id later db'
        ≡ (ok (record r { book_id = book_id }), db'))
unlock_chapter-again prisma user_id chapter_id now later db db' r doc =
    rw (eq_on_lists prisma doc)
      (again_on_lists (uuid_of prisma) user_id now later chapter_id db db' r)
