-- ===== src/Chapters/Next.antt =====
-- chapters.service.ts: the links between the chapters of a book.
use novelhub.Prelude.{
  ◌≤◌, true, false, none, some, List, ◌≡◌, arith, All, All-map, inl, inr, Option-cases,
}
use novelhub.Prisma.{Prisma, IsDocumented, Uuid, on_lists, uuid_of, eq_on_lists, first}
use novelhub.Prisma.Rows.{first-All, first-holds}
use novelhub.Prisma.Top.{top-has, top-holds, top-leads, top-none}
use novelhub.Schema.{Chapter, Db}
use novelhub.Catalog.{is_stored_chapter}
use novelhub.Chapters.{
  stands_before, stands_after, by_order_desc, by_order_asc, id_of, prev_chapter, next_chapter,
}

-- No two chapters of a book have the same place.
abbrev pub HaveUniqueOrders : List Chapter → Type 0
HaveUniqueOrders chapters =
    All
      (λ (c : Chapter).
        All (λ (d : Chapter). c.book_id ≡ d.book_id → c.order ≡ d.order → c.id ≡ d.id) chapters)
      chapters

desc_total : (r s : Chapter) → by_order_desc r s ≡ false → by_order_desc s r ≡ true
desc_total r s h = ground arith

desc_trans :
    (r s t : Chapter)
    → by_order_desc r s ≡ true
    → by_order_desc s t ≡ true
    → by_order_desc r t ≡ true
desc_trans r s t h k = ground arith

asc_total : (r s : Chapter) → by_order_asc r s ≡ false → by_order_asc s r ≡ true
asc_total r s h = ground arith

asc_trans :
    (r s t : Chapter) → by_order_asc r s ≡ true → by_order_asc s t ≡ true → by_order_asc r t ≡ true
asc_trans r s t h k = ground arith

module _ (uuid : Uuid) (db : Db) (c d : Chapter)
    (stored : first (is_stored_chapter c.id) db.chapters ≡ some c)
    (e : next_chapter (on_lists uuid) c db ≡ some d) where
  after_it : stands_after c d ≡ true
  unfolding next_chapter
  after_it = top-holds by_order_asc asc_total asc_trans (stands_after c) db.chapters d e

  nearest : All (λ r. stands_after c r ≡ true → by_order_asc d r ≡ true) db.chapters
  unfolding next_chapter
  nearest = top-leads by_order_asc asc_total asc_trans (stands_after c) db.chapters d e

  before_it : stands_before d c ≡ true
  before_it = ground (arith, after_it, first-holds (is_stored_chapter c.id) db.chapters c stored)

  -- The chapter before `d` is no other than `c`.
  is_back :
      (b : Chapter)
      → prev_chapter (on_lists uuid) d db ≡ some b
      → HaveUniqueOrders db.chapters
      → b.id ≡ c.id
  unfolding prev_chapter
  is_back b f unique =
      let holds = top-holds by_order_desc desc_total desc_trans (stands_before d) db.chapters b f in
      let leads =
        first-All (λ r. stands_before d r ≡ true → by_order_desc b r ≡ true)
          (is_stored_chapter c.id) db.chapters c
          (top-leads by_order_desc desc_total desc_trans (stands_before d) db.chapters b f) stored
          before_it in
      let near =
        top-has by_order_desc desc_total desc_trans (stands_before d) db.chapters b f
          (λ r. stands_after c r ≡ true → by_order_asc d r ≡ true) nearest in
      let one =
        first-All (λ (r : Chapter). b.book_id ≡ r.book_id → b.order ≡ r.order → b.id ≡ r.id)
          (is_stored_chapter c.id) db.chapters c
          (top-has by_order_desc desc_total desc_trans (stands_before d) db.chapters b f _ unique)
          stored in
      one (ground (arith, holds, after_it)) (ground (arith, holds, leads, near, after_it))

  back_on_lists :
      HaveUniqueOrders db.chapters → id_of (prev_chapter (on_lists uuid) d db) ≡ some c.id
  back_on_lists unique = elim (Option-cases (prev_chapter (on_lists uuid) d db)) [
    | inr (b, f) ↦ rw (f, is_back b f unique)
    | inl f ↦ absurd (lost f)
  ]
    where
      lost : prev_chapter (on_lists uuid) d db ≡ none → ⊥
      lost f =
          let none_before =
            first-All (λ r. stands_before d r ≡ false) (is_stored_chapter c.id) db.chapters c
              (top-none by_order_desc (stands_before d) db.chapters (unfold prev_chapter in f))
              stored in
          ground (arith, none_before, before_it)

-- Where no two chapters of a book have the same place and `c` is stored, the chapter that its page
-- links to as the next one links back to `c` as the one before.
pub next-prev :
    (prisma : Prisma) (db : Db) (c d : Chapter)
    → IsDocumented prisma
    → HaveUniqueOrders db.chapters
    → first (is_stored_chapter c.id) db.chapters ≡ some c
    → next_chapter prisma c db ≡ some d
    → id_of (prev_chapter prisma d db) ≡ some c.id
next-prev prisma db c d doc unique stored =
    rw (eq_on_lists prisma doc) λ e. back_on_lists (uuid_of prisma) db c d stored e unique

-- The next chapter stands in the same book, is not deleted and comes later, and no chapter of the
-- book that is not deleted lies between.
pub next_chapter-nearest :
    (prisma : Prisma) (db : Db) (c d : Chapter)
    → IsDocumented prisma
    → next_chapter prisma c db ≡ some d
    → (stands_after c d ≡ true) × All (λ r. stands_after c r ≡ true → d.order ≤ r.order) db.chapters
next_chapter-nearest prisma db c d doc = rw (eq_on_lists prisma doc) λ e. (
  top-holds by_order_asc asc_total asc_trans (stands_after c) db.chapters d
      (unfold next_chapter in e),
  All-map (λ r. stands_after c r ≡ true → by_order_asc d r ≡ true) _ db.chapters
      (λ r h s. let l = h s in ground (arith, l))
      (top-leads by_order_asc asc_total asc_trans (stands_after c) db.chapters d
        (unfold next_chapter in e)),
)
