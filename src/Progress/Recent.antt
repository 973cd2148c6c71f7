-- ===== src/Progress/Recent.antt =====
-- `listRecent` of reading-progress.service.ts.
use novelhub.Prelude.{
  ℕ, zero, suc, ◌≤◌, take, true, some, List, [], ◌∷◌, ◌≡◌, refl, arith, All, All-map, length,
  length-take_le, inr,
}
use novelhub.Prelude.Int.{ℤ, pos_part}
use novelhub.Action.{Ident, ok}
use novelhub.Prisma.{
  Prisma, IsDocumented, Uuid, on_lists, uuid_of, eq_on_lists, first, sort, matching,
}
use novelhub.Prisma.Top.{sort-All, All-sort, matching-All, All-matching, matching-holds}
use novelhub.Prisma.Sorted.{sort-IsSorted}
use novelhub.Schema.{Book, Chapter, ReadingProgress, Db}
use novelhub.Catalog.{is_chapter, is_book}
use novelhub.Progress.{
  ProgressListItem, list_item, is_by, most_recent, reduce_by_book, fetch_limit, fetch_rows,
  recent_rows, item_of, items_of, list_recent,
}
use novelhub.Progress.Books.{
  AreOfDistinctBooks, IsLatest, reduce-distinct, take-distinct, reduce-IsLatest, All-IsLeft,
  recent_total, recent_trans, reduce-All, take-All,
}

-- The foreign keys of a row of `reading_progress`.
abbrev pub HasJoins : Db → ReadingProgress → Type 0
HasJoins db p =
    ((c : Chapter) × (first (is_chapter p.chapter_id) db.chapters ≡ some c))
    × ((b : Book) × (first (is_book p.book_id) db.books ≡ some b))

-- The row of a user that is as recent as every other row of the user in its book.
abbrev pub IsLatestOf : Ident → Db → ReadingProgress → Type 0
IsLatestOf user_id db p =
    (is_by user_id p ≡ true)
    × All (λ q. is_by user_id q ≡ true → q.book_id ≡ p.book_id → most_recent p q ≡ true) db.progress

All-zip :
    (P Q : ReadingProgress → Type 0) {R : ReadingProgress → Type 0} (rows : List ReadingProgress)
    → ((p : ReadingProgress) → P p → Q p → R p)
    → All P rows
    → All Q rows
    → All R rows
All-zip P Q [] f h k = tt
All-zip P Q (p ∷ rows) f h k = (f p h.0 k.0, All-zip P Q rows f h.1 k.1)

module _ (uuid : Uuid) (user_id : Ident) (db : Db) where
  abbrev own : List ReadingProgress
  own = sort most_recent (matching (is_by user_id) db.progress)

  own_are_by : All (λ p. is_by user_id p ≡ true) own
  own_are_by =
      sort-All _ most_recent (matching (is_by user_id) db.progress)
        (matching-holds (is_by user_id) db.progress)

  latest_in_db :
      (p : ReadingProgress) → is_by user_id p ≡ true → IsLatest own p → IsLatestOf user_id db p
  latest_in_db p h l = (
    h,
    All-matching _ (is_by user_id) db.progress
        (All-sort _ most_recent (matching (is_by user_id) db.progress) l),
  )

  fetched :
      (limit n : ℕ)
      → let rows = fetch_rows (on_lists uuid) user_id limit n db in
        AreOfDistinctBooks rows × All (IsLatestOf user_id db) rows × (length rows ≤ limit)
  unfolding fetch_rows
  fetched limit zero = (tt, tt, omega arith)
  fetched limit (suc n) =
      let fetched_rows = take (suc n) own in
      let one_each = reduce_by_book [] fetched_rows in
      let seen = All-map _ _ own (λ q left. inr left) (All-IsLeft own) in
      let sorted =
        sort-IsSorted most_recent recent_total recent_trans
          (matching (is_by user_id) db.progress) in
      let newest = reduce-IsLatest own (suc n) [] own sorted seen tt in
      let by = reduce-All _ [] fetched_rows tt (take-All _ (suc n) own own_are_by) in
      (
        take-distinct limit one_each (reduce-distinct [] fetched_rows tt),
        take-All _ limit one_each (All-zip _ _ one_each latest_in_db by newest),
        length-take_le limit one_each,
      )

  All-joined :
      (limit n : ℕ)
      → All (HasJoins db) db.progress
      → All (HasJoins db) (fetch_rows (on_lists uuid) user_id limit n db)
  unfolding fetch_rows
  All-joined limit zero h = tt
  All-joined limit (suc n) h = take-All _ limit (reduce_by_book [] (take (suc n) own)) (
      reduce-All _ [] (take (suc n) own) tt (
        take-All _ (suc n) own (
          sort-All _ most_recent (matching (is_by user_id) db.progress)
            (matching-All _ (is_by user_id) db.progress h))))

  joined :
      (rows : List ReadingProgress)
      → All (HasJoins db) rows
      → (items : List ProgressListItem) × (items_of (on_lists uuid) db rows ≡ some items)
        × (length items ≡ length rows)
  unfolding items_of item_of
  joined [] h = ([], refl, refl)
  joined (p ∷ rows) (((c, e), (b, f)), h) =
      let (items, g, same) = joined rows h in
      (list_item p c b ∷ items, ground (arith, e, f, g), omega (arith, same))

  answers :
      (limit : ℤ)
      → All (HasJoins db) db.progress
      → (rows : List ReadingProgress) × (items : List ProgressListItem) × (list_recent
            (on_lists uuid)
            user_id
            limit
            db
          ≡ (ok items, db))
        × (items_of (on_lists uuid) db rows ≡ some items)
        × (length items ≤ pos_part limit)
        × AreOfDistinctBooks rows
        × All (IsLatestOf user_id db) rows
  unfolding list_recent recent_rows
  answers limit h =
      let n = fetch_limit (pos_part limit) in
      let rows = fetch_rows (on_lists uuid) user_id (pos_part limit) n db in
      let (distinct, newest, short) = fetched (pos_part limit) n in
      let (items, e, same) = joined rows (All-joined (pos_part limit) n h) in
      (rows, items, rw e refl, e, omega (arith, same, short), distinct, newest)

-- Where every row of progress has its chapter and its book, the list of what a user has read last
-- is given, for any limit: it has at most `limit` items, they show rows of the user, no two of
-- one book, and each is as recent as every other row of the user in its book.
pub list_recent-latest :
    (prisma : Prisma) (user_id : Ident) (limit : ℤ) (db : Db)
    → IsDocumented prisma
    → All (HasJoins db) db.progress
    → (rows : List ReadingProgress) × (items : List ProgressListItem) × (list_recent prisma user_id
          limit db
        ≡ (ok items, db))
      × (items_of prisma db rows ≡ some items)
      × (length items ≤ pos_part limit)
      × AreOfDistinctBooks rows
      × All (IsLatestOf user_id db) rows
list_recent-latest prisma user_id limit db doc =
    rw (eq_on_lists prisma doc) (answers (uuid_of prisma) user_id db limit)
