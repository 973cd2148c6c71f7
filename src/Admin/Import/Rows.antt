-- ===== src/Admin/Import/Rows.antt =====
-- The rows that the transaction of `bulkImportChapters` writes.

use mathlib.Core.Path.{subst}
use novelhub.Prelude.{
  ℕ, suc, Bool, true, false, some, List, [], ◌∷◌, ◌++◌, ◌≡◌, ◌∙◌, refl, ap, arith, length, inl, inr,
  Option-cases, if◌then◌else◌,
}
use novelhub.Action.{Ident, Error, Result, ok, err, Exec, pure, ◌>>=◌, ◌>>◌}
use novelhub.Prisma.{Uuid, on_lists, first, insert_row, update_rows}
use novelhub.Schema.{Action, Book, Chapter, chapter_clash, Db}
use novelhub.Admin.{CreatedRow, create_chapter_row, update_book_row, delete_chapter}
use novelhub.Admin.Import.{
  ParsedChapter, imported_chapter, is_live_of, set_total, delete_chapters_of, create_imported,
  import_rows,
}

-- The rows that the chapters of a file become.
abbrev pub AreImported : Book → List ParsedChapter → List Chapter → Type 0
AreImported book [] [] = Unit
AreImported book [] (c ∷ added) = ⊥
AreImported book (p ∷ chapters) [] = ⊥
AreImported book (p ∷ chapters) (c ∷ added) =
    (c ≡ imported_chapter book p c.id) × AreImported book chapters added

abbrev pub Made : Book → List ParsedChapter → List Chapter → Result (List CreatedRow) × Db → Type 0
Made book chapters stored (err e, db') = Unit
Made book chapters stored (ok rows, db') =
    (added : List Chapter) × (db'.chapters ≡ stored ++ added)
    × AreImported book chapters added
    × (length rows ≡ length chapters)

insert_row-appends :
    (c : Chapter) (rows rows' : List Chapter)
    → insert_row chapter_clash c rows ≡ some rows'
    → rows' ≡ rows ++ c ∷ []
insert_row-appends c rows rows' e = elim (Option-cases (first (chapter_clash c) rows)) [
  | inl n ↦ ground (arith, n)
  | inr (r, y) ↦ ground (arith, y)
]

append_assoc :
    (xs : List Chapter) (y : Chapter) (ys : List Chapter) → (xs ++ y ∷ []) ++ ys ≡ xs ++ y ∷ ys
append_assoc [] y ys = refl
append_assoc (x ∷ xs) y ys = rw (append_assoc xs y ys) refl

append_nil : (xs : List Chapter) → xs ≡ xs ++ []
append_nil [] = refl
append_nil (x ∷ xs) = ap (λ l. x ∷ l) (append_nil xs)

-- A step, and what follows where it returns and where it throws.
pub step :
    {S A B : Type 0} (Q : Result B × S → Type 0) (m : Exec S A) (f : A → Exec S B) (s : S)
    → ((a : A) (s' : S) → m s ≡ (ok a, s') → Q (f a s'))
    → ((e : Error) (s' : S) → m s ≡ (err e, s') → Q (err e, s'))
    → Q ((m >>= f) s)
step {S} {A} {B} Q m f s g h = stepped (m s) refl
  where
    stepped :
        (r : Result A × S)
        → m s ≡ r
        → Q (elim r.0 as (λ _. Result B × S) [ ok a ↦ f a r.1 | err e ↦ (err e, r.1) ])
    stepped (ok a, s') e = g a s' e
    stepped (err x, s') e = h x s' e

-- The chapters that stay where a file is imported: with `replace` those of the book are deleted.
abbrev pub kept_chapters : Ident → Bool → ℕ → List Chapter → List Chapter
kept_chapters book_id replace now chapters =
    if replace then update_rows (is_live_of book_id) (delete_chapter now) chapters else chapters

module _ (uuid : Uuid) (book : Book) where
  abbrev appended : Chapter → Db → Db
  appended c db = record db { chapters = db.chapters ++ c ∷ [] }

  create_chapter_row-appended :
      (c : Chapter) (db db' : Db) (u : Unit {0})
      → create_chapter_row (on_lists uuid) c db ≡ (ok u, db')
      → db' ≡ appended c db
  unfolding create_chapter_row
  create_chapter_row-appended c db db' u e =
      elim (Option-cases (insert_row chapter_clash c db.chapters)) [
        | inl n ↦ ground (arith, n)
        | inr (rows, y) ↦
            let same = insert_row-appends c db.chapters rows y in ground (arith, y, same)
      ]

  create_imported-Made :
      (chapters : List ParsedChapter) (db : Db)
      → Made book chapters db.chapters (create_imported (on_lists uuid) book chapters db)
  unfolding create_imported
  create_imported-Made [] db = ([], append_nil db.chapters, tt, refl)
  create_imported-Made (p ∷ chapters) db =
      let c = imported_chapter book p (uuid Chapter (λ c. c.id) db.chapters) in
      step (Made book (p ∷ chapters) db.chapters) (create_chapter_row (on_lists uuid) c)
        (λ _. create_imported (on_lists uuid) book chapters >>= λ rows.
          pure (record { id = c.id; content = p.body } ∷ rows))
        db
        (λ u db' e.
          step (Made book (p ∷ chapters) db.chapters)
            (create_imported (on_lists uuid) book chapters)
            (λ rows. pure (record { id = c.id; content = p.body } ∷ rows)) db'
            (λ rows db'' e'.
              let (added, kept, same, count) =
                subst (Made book chapters db'.chapters) e' (create_imported-Made chapters db') in
              let before = create_chapter_row-appended c db db' u e in
              (
                c ∷ added,
                kept
                    ∙ ap (λ (d : Db). d.chapters ++ added) before
                    ∙ append_assoc db.chapters c added,
                (refl, same),
                ap (λ n. suc n) count,
              ))
            (λ _ _ _. tt))
        (λ _ _ _. tt)

  update_book_row-chapters :
      (id : Ident) (f : Book → Book) (db db' : Db) (u : Unit {0})
      → update_book_row (on_lists uuid) id f db ≡ (ok u, db')
      → db'.chapters ≡ db.chapters
  unfolding update_book_row
  update_book_row-chapters id f db db' u e = ground arith

  abbrev rest : Bool → List ParsedChapter → Action (List CreatedRow)
  rest replace chapters = do
    rows ← create_imported (on_lists uuid) book chapters
    update_book_row (on_lists uuid) book.id (set_total book replace (length rows))
    pure rows

  rest-Made :
      (replace : Bool) (chapters : List ParsedChapter) (db : Db)
      → Made book chapters db.chapters (rest replace chapters db)
  rest-Made replace chapters db =
      step (Made book chapters db.chapters) (create_imported (on_lists uuid) book chapters)
        (λ rows.
          update_book_row (on_lists uuid) book.id (set_total book replace (length rows)) >>= λ _.
          pure rows)
        db
        (λ rows db' e.
          step (Made book chapters db.chapters)
            (update_book_row (on_lists uuid) book.id (set_total book replace (length rows)))
            (λ _. pure rows) db'
            (λ u db'' e'.
              let (added, kept, same, count) =
                subst (Made book chapters db.chapters) e (create_imported-Made chapters db) in
              let still =
                update_book_row-chapters book.id (set_total book replace (length rows)) db' db'' u
                  e' in
              (added, still ∙ kept, same, count))
            (λ _ _ _. tt))
        (λ _ _ _. tt)

  pub import_rows-Made :
      (replace : Bool) (now : ℕ) (chapters : List ParsedChapter) (db : Db)
      → Made book chapters
          (kept_chapters book.id replace now db.chapters)
          (import_rows (on_lists uuid) book replace now chapters db)
  unfolding import_rows delete_chapters_of
  import_rows-Made true now chapters db =
      rest-Made true chapters
        (record db { chapters = update_rows (is_live_of book.id) (delete_chapter now) db.chapters })
  import_rows-Made false now chapters db = rest-Made false chapters db
