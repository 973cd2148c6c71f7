-- ===== src/Admin/Edit/Rows.antt =====
-- The limit of free chapters of a book, and the writes to the database that keep it.

use novelhub.Prelude.{
  ℕ, suc, ◌≤◌, Bool, true, false, List, [], ◌∷◌, arith, All, All-append, inl, inr, Bool-cases,
  Option-cases, is_some, not, ◌&&◌,
}
use novelhub.Prelude.Int.{ℤ, pos}
use novelhub.Action.{Ident, gets, pure, ◌>>=◌, ◌>>◌}
use novelhub.Ledger.Keeps.{Keeps, transaction-Keeps, weaken, keeps_rules}
use novelhub.Prisma.{Uuid, on_lists, first, update_rows}
use novelhub.Schema.{Action, Book, Chapter, chapter_clash, Db}
use novelhub.Catalog.{is_book}
use novelhub.Admin.{
  Upload, new_chapter, CreatedRow, add_total, create_chapter_row, create_rows, append_chapters,
  clamp_free_chapter_limit, book_clash, delete_book, find_stored_book, update_book_row,
}
use novelhub.Admin.Import.{
  ParsedChapter, imported_chapter, set_total, delete_chapters_of, create_imported, import_rows,
}
use novelhub.Admin.Edit.{
  AdminEnv, configured_free_chapter_limit, CreateBook, UpdateBook, new_book, set_book,
  create_book_row,
}

-- Between one and three chapters of a book are free.
abbrev pub HasFreeLimit : Book → Type 0
HasFreeLimit b = (1 ≤ b.free_chapter_count) × (b.free_chapter_count ≤ 3)

abbrev pub HaveFreeLimits : Db → Type 0
HaveFreeLimits db = All HasFreeLimit db.books

clamp_bounds : (n : ℤ) → (1 ≤ clamp_free_chapter_limit n) × (clamp_free_chapter_limit n ≤ 3)
clamp_bounds n = ground arith

new_book-HasFreeLimit :
    (env : AdminEnv) (dto : CreateBook) (now : ℕ) (id : Ident)
    → HasFreeLimit (new_book env dto now id)
new_book-HasFreeLimit env dto now id = elim (Option-cases dto.free_chapter_count) [
  | inl e ↦
      rw e (clamp_bounds (pos (configured_free_chapter_limit env.parse_int env.free_chapter_limit)))
  | inr (n, e) ↦ rw e (clamp_bounds n)
]

set_book-HasFreeLimit :
    (env : AdminEnv) (dto : UpdateBook) (b : Book)
    → HasFreeLimit b
    → HasFreeLimit (set_book env dto b)
set_book-HasFreeLimit env dto b h = elim (Option-cases dto.free_chapter_count) [
  | inl e ↦ rw e h
  | inr (n, e) ↦ rw e (clamp_bounds n)
]

update_rows-HasFreeLimit :
    (f : Book → Book) (w : Book → Bool) (books : List Book)
    → ((b : Book) → HasFreeLimit b → HasFreeLimit (f b))
    → All HasFreeLimit books
    → All HasFreeLimit (update_rows w f books)
update_rows-HasFreeLimit f w [] k h = tt
update_rows-HasFreeLimit f w (b ∷ books) k h = elim (Bool-cases (w b)) [
  | inl e ↦ rw e (k b h.0, update_rows-HasFreeLimit f w books k h.1)
  | inr e ↦ rw e (h.0, update_rows-HasFreeLimit f w books k h.1)
]

module _ (uuid : Uuid) where
  pub create_book_row-Keeps :
      (b : Book) → HasFreeLimit b → Keeps HaveFreeLimits (create_book_row (on_lists uuid) b)
  unfolding create_book_row
  create_book_row-Keeps b h = record {
    at = λ db k. elim (Option-cases (first (book_clash b) db.books)) [
      | inl e ↦ rw (create_book_row, e) (All-append HasFreeLimit db.books k h)
      | inr (c, e) ↦ rw (create_book_row, e) k
    ];
  }

  pub update_book_row-Keeps :
      (id : Ident) (f : Book → Book)
      → ((b : Book) → HasFreeLimit b → HasFreeLimit (f b))
      → Keeps HaveFreeLimits (update_book_row (on_lists uuid) id f)
  unfolding update_book_row
  update_book_row-Keeps id f h = record {
    at = λ db k. elim (Option-cases (first (is_book id) db.books)) [
      | inl e ↦ rw (update_book_row, e) k
      | inr (b, e) ↦
          rw (update_book_row, e)
            (elim (Bool-cases
              (is_some (first (λ s. not (is_book id s) && book_clash (f b) s) db.books))) [
                | inl c ↦ rw c k
                | inr c ↦ rw c (update_rows-HasFreeLimit f (is_book id) db.books h k)
              ])
    ];
  }

  pub find_stored_book-Keeps :
      (id : Ident) → Keeps HaveFreeLimits (find_stored_book (on_lists uuid) id)
  unfolding find_stored_book
  find_stored_book-Keeps id = search keeps_rules

  pub set_book-Keeps :
      (env : AdminEnv) (id : Ident) (dto : UpdateBook)
      → Keeps HaveFreeLimits (update_book_row (on_lists uuid) id (set_book env dto))
  set_book-Keeps env id dto =
      update_book_row-Keeps id (set_book env dto) (set_book-HasFreeLimit env dto)

  pub delete_book-Keeps :
      (id : Ident) (now : ℕ)
      → Keeps HaveFreeLimits (update_book_row (on_lists uuid) id (delete_book now))
  delete_book-Keeps id now = update_book_row-Keeps id (delete_book now) (λ b h. h)

  pub new_book-Keeps :
      (env : AdminEnv) (dto : CreateBook) (now : ℕ) (id : Ident)
      → Keeps HaveFreeLimits (create_book_row (on_lists uuid) (new_book env dto now id))
  new_book-Keeps env dto now id =
      create_book_row-Keeps (new_book env dto now id) (new_book-HasFreeLimit env dto now id)

  pub add_total-Keeps :
      (id n : ℕ) → Keeps HaveFreeLimits (update_book_row (on_lists uuid) id (add_total n))
  add_total-Keeps id n = update_book_row-Keeps id (add_total n) (λ b h. h)

  pub create_chapter_row-Keeps :
      (c : Chapter) → Keeps HaveFreeLimits (create_chapter_row (on_lists uuid) c)
  unfolding create_chapter_row
  create_chapter_row-Keeps c = record {
    at = λ db k. elim (Option-cases (first (chapter_clash c) db.chapters)) [
      | inl e ↦ rw (create_chapter_row, e) k
      | inr (d, e) ↦ rw (create_chapter_row, e) k
    ];
  }

  pub row_then-Keeps :
      (book : Book) (order : ℕ) (u : Upload) (rest : Action (List CreatedRow))
      → Keeps HaveFreeLimits rest
      → Keeps {S = Db} {A = List CreatedRow} HaveFreeLimits (do
        id ← gets (λ db. uuid Chapter (λ c. c.id) db.chapters)
        create_chapter_row (on_lists uuid) (new_chapter book order u id)
        rows ← rest
        pure (record { id = id; content = u.chapter.content } ∷ rows))
  row_then-Keeps book order u rest h = search (keeps_rules, create_chapter_row-Keeps)

  pub create_rows-Keeps :
      (book : Book) (order : ℕ) (uploads : List Upload)
      → Keeps HaveFreeLimits (create_rows (on_lists uuid) book order uploads)
  unfolding create_rows
  create_rows-Keeps book order [] = search keeps_rules
  create_rows-Keeps book order (u ∷ uploads) =
      row_then-Keeps book order u (create_rows (on_lists uuid) book (suc order) uploads)
        (create_rows-Keeps book (suc order) uploads)

  pub append_chapters-Keeps :
      (book : Book) (uploads : List Upload)
      → Keeps HaveFreeLimits (append_chapters (on_lists uuid) book uploads)
  unfolding append_chapters
  append_chapters-Keeps book uploads = search (keeps_rules, create_rows-Keeps, add_total-Keeps)

  pub transaction_append-Keeps :
      (book : Book) (uploads : List Upload)
      → Keeps HaveFreeLimits
          ((on_lists uuid).transaction (append_chapters (on_lists uuid) book uploads))
  transaction_append-Keeps book uploads =
      transaction-Keeps _ (weaken _ (append_chapters-Keeps book uploads))

  pub set_total-Keeps :
      (book : Book) (replace : Bool) (n : ℕ)
      → Keeps HaveFreeLimits (update_book_row (on_lists uuid) book.id (set_total book replace n))
  set_total-Keeps book replace n =
      update_book_row-Keeps book.id (set_total book replace n) (λ b h. h)

  pub imported_then-Keeps :
      (book : Book) (c : ParsedChapter) (rest : Action (List CreatedRow))
      → Keeps HaveFreeLimits rest
      → Keeps {S = Db} {A = List CreatedRow} HaveFreeLimits (do
        id ← gets (λ db. uuid Chapter (λ c. c.id) db.chapters)
        create_chapter_row (on_lists uuid) (imported_chapter book c id)
        rows ← rest
        pure (record { id = id; content = c.body } ∷ rows))
  imported_then-Keeps book c rest h = search (keeps_rules, create_chapter_row-Keeps)

  pub create_imported-Keeps :
      (book : Book) (chapters : List ParsedChapter)
      → Keeps HaveFreeLimits (create_imported (on_lists uuid) book chapters)
  unfolding create_imported
  create_imported-Keeps book [] = search keeps_rules
  create_imported-Keeps book (c ∷ chapters) =
      imported_then-Keeps book c (create_imported (on_lists uuid) book chapters)
        (create_imported-Keeps book chapters)

  pub delete_chapters_of-Keeps :
      (id : Ident) (now : ℕ) → Keeps HaveFreeLimits (delete_chapters_of (on_lists uuid) id now)
  unfolding delete_chapters_of
  delete_chapters_of-Keeps id now = record { at = λ db h. h }

  pub import_rows-Keeps :
      (book : Book) (replace : Bool) (now : ℕ) (chapters : List ParsedChapter)
      → Keeps HaveFreeLimits (import_rows (on_lists uuid) book replace now chapters)
  unfolding import_rows
  import_rows-Keeps book true now chapters =
      search (keeps_rules, delete_chapters_of-Keeps, create_imported-Keeps, set_total-Keeps)
  import_rows-Keeps book false now chapters =
      search (keeps_rules, create_imported-Keeps, set_total-Keeps)

  pub transaction_import-Keeps :
      (book : Book) (replace : Bool) (now : ℕ) (chapters : List ParsedChapter)
      → Keeps HaveFreeLimits
          ((on_lists uuid).transaction (import_rows (on_lists uuid) book replace now chapters))
  transaction_import-Keeps book replace now chapters =
      transaction-Keeps _ (weaken _ (import_rows-Keeps book replace now chapters))
