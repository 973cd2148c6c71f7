-- ===== src/Admin/Append.antt =====
-- The loop of `bulkCreateChapters` of admin.service.ts over the uploads.

use Prim.Native.Nat.{max}
use novelhub.Prelude.{
  ℕ, suc, ◌≤◌, ◌<◌, false, List, [], ◌∷◌, ◌++◌, ◌≡◌, ◌≢◌, ◌∙◌, refl, sym, ap, arith, length, All,
  All-append, All-map, inl, inr, Bool-cases, get_or,
}
use novelhub.Action.{Ident, ok}
use novelhub.Prisma.{Uuid, on_lists, max_rows}
use novelhub.Prisma.Rows.{insert_row-new}
use novelhub.Schema.{Book, Chapter, chapter_clash, Db}
use novelhub.Chapters.Next.{HaveUniqueOrders}
use novelhub.Admin.{Upload, CreatedRow, of_book, new_chapter, create_chapter_row, create_rows}

-- Every chapter of the book stands before the place.
abbrev pub AreBefore : Ident → ℕ → List Chapter → Type 0
AreBefore book_id order chapters =
    All (λ (c : Chapter). c.book_id ≡ book_id → c.order < order) chapters

-- Chapters of the book at the places from `order` on, one after the other.
abbrev pub AreNumbered : Ident → ℕ → List Chapter → Type 0
AreNumbered book_id order [] = Unit
AreNumbered book_id order (c ∷ chapters) =
    (c.book_id ≡ book_id) × (c.order ≡ order) × AreNumbered book_id (suc order) chapters

append_assoc :
    {A : Type 0} (xs : List A) (y : A) (ys : List A) → (xs ++ y ∷ []) ++ ys ≡ xs ++ y ∷ ys
append_assoc [] y ys = refl
append_assoc (x ∷ xs) y ys = rw (append_assoc xs y ys) refl

append_nil : {A : Type 0} (xs : List A) → xs ++ [] ≡ xs
append_nil [] = refl
append_nil (x ∷ xs) = rw (append_nil xs) refl

-- The greatest order of a book, 0 where it has no chapter.
abbrev pub top_order : Ident → List Chapter → ℕ
top_order book_id chapters =
    get_or (max_rows (λ (c : Chapter). c.order) (of_book book_id) chapters) 0

weaken :
    (book_id : Ident) (m n : ℕ) (chapters : List Chapter)
    → m ≤ n
    → AreBefore book_id (suc m) chapters
    → AreBefore book_id (suc n) chapters
weaken book_id m n chapters le h =
    All-map _ _ chapters (λ c b same. let l = b same in omega (arith, l, le)) h

pub max-AreBefore :
    (book_id : Ident) (chapters : List Chapter)
    → AreBefore book_id (suc (top_order book_id chapters)) chapters
max-AreBefore book_id [] = tt
max-AreBefore book_id (c ∷ chapters) = elim (Bool-cases (of_book book_id c)) [
  | inl e ↦
      let top : top_order book_id (c ∷ chapters) ≡ max c.order (top_order book_id chapters) =
        ground (arith, e) in
      (
        (λ _. omega (arith, top)),
        weaken book_id (top_order book_id chapters) (top_order book_id (c ∷ chapters)) chapters
            (omega (arith, top)) (max-AreBefore book_id chapters),
      )
  | inr e ↦
      let top : top_order book_id (c ∷ chapters) ≡ top_order book_id chapters = ground (arith, e) in
      (
        (λ same. absurd (ground (arith, e, same))),
        weaken book_id (top_order book_id chapters) (top_order book_id (c ∷ chapters)) chapters
            (omega (arith, top)) (max-AreBefore book_id chapters),
      )
]

no_clash :
    (n : Chapter) (chapters : List Chapter)
    → All (λ (c : Chapter). c.id ≢ n.id) chapters
    → AreBefore n.book_id n.order chapters
    → All (λ c. chapter_clash n c ≡ false) chapters
no_clash n [] h k = tt
no_clash n (c ∷ chapters) h k = (ground (arith, h.0, k.0), no_clash n chapters h.1 k.1)

All-both :
    {A : Type 0} (P Q : A → Type 0) {R : A → Type 0} (xs : List A)
    → ((x : A) → P x → Q x → R x)
    → All P xs
    → All Q xs
    → All R xs
All-both P Q [] f h k = tt
All-both P Q (x ∷ xs) f h k = (f x h.0 k.0, All-both P Q xs f h.1 k.1)

HaveUniqueOrders-append :
    (chapters : List Chapter) (n : Chapter)
    → HaveUniqueOrders chapters
    → AreBefore n.book_id n.order chapters
    → HaveUniqueOrders (chapters ++ n ∷ [])
HaveUniqueOrders-append chapters n h k =
    All-append _ chapters
      (All-both _ _ chapters
        (λ c u b.
          All-append _ chapters u
            (λ same order. let l = b same in absurd (omega (arith, l, order))))
        h k)
      (All-append _ chapters
        (All-map _ _ chapters
          (λ c b same order. let l = b (sym same) in absurd (omega (arith, l, order))) k)
        (λ _ _. refl))

module _ (uuid : Uuid)
    (ids : (rows : List Chapter) → All (λ (c : Chapter). c.id ≢ uuid Chapter (λ c. c.id) rows) rows)
    (book : Book) where
  abbrev pub Created : ℕ → List Upload → Db → Type 0
  Created order uploads db =
      (rows : List CreatedRow) × (added : List Chapter) × (create_rows (on_lists uuid) book order
          uploads db
        ≡ (ok rows, record db { chapters = db.chapters ++ added }))
      × (length rows ≡ length uploads)
      × (length added ≡ length uploads)
      × AreNumbered book.id order added
      × HaveUniqueOrders (db.chapters ++ added)

  created :
      (n : Chapter) (db : Db)
      → All (λ (c : Chapter). c.id ≢ n.id) db.chapters
      → AreBefore n.book_id n.order db.chapters
      → create_chapter_row (on_lists uuid) n db
        ≡ (ok tt, record db { chapters = db.chapters ++ n ∷ [] })
  unfolding create_chapter_row
  created n db fresh before =
      let i = insert_row-new chapter_clash n db.chapters (no_clash n db.chapters fresh before) in
      rw (create_chapter_row, i) refl

  pub creates :
      (order : ℕ) (uploads : List Upload) (db : Db)
      → AreBefore book.id order db.chapters
      → HaveUniqueOrders db.chapters
      → Created order uploads db
  unfolding create_rows
  creates order [] db before unique =
      let same = append_nil db.chapters in
      (
        [],
        [],
        ap (λ l. (ok [], record db { chapters = l })) (sym same),
        refl,
        refl,
        tt,
        rw same unique,
      )
  creates order (u ∷ uploads) db before unique =
      let n = new_chapter book order u (uuid Chapter (λ c. c.id) db.chapters) in
      let db' : Db = record db { chapters = db.chapters ++ n ∷ [] } in
      let later =
        All-append _ db.chapters
          (All-map _ _ db.chapters (λ c h same. let l = h same in omega (arith, l)) before)
          (λ _. omega arith) in
      let (rows, added, done, count, many, numbered, kept) =
        creates (suc order) uploads db' later
          (HaveUniqueOrders-append db.chapters n unique before) in
      let assoc = append_assoc db.chapters n added in
      (
        record { id = n.id; content = u.chapter.content } ∷ rows,
        n ∷ added,
        (let made = created n db (ids db.chapters) before in ground (arith, made, done))
            ∙ ap
                (λ l. (
                  ok (record { id = n.id; content = u.chapter.content } ∷ rows),
                  record db { chapters = l },
                ))
                assoc,
        omega (arith, count),
        omega (arith, many),
        (refl, refl, numbered),
        rw (sym assoc) kept,
      )
