-- ===== src/Admin/Tests.antt =====
-- Two chapters are added to the book of a small database.
use Prim.Native.String.{String}
use text.Mathlib.Text.{◌==◌ as str_eq}
use text.Mathlib.TextPositions.{eq_refl}
use novelhub.Prelude.{Option, if◌then◌else◌, ℕ, true, none, some, [], ◌∷◌, ◌≡◌, refl, List, arith}
use novelhub.Prelude.Int.{negsuc}
use novelhub.Sample.{client, client-IsDocumented, library, novel, opening, second}
use novelhub.Admin.{
  AdminStore, BulkChapter, upload_all, uploads_of, clamp_free_chapter_limit, bulk_create_chapters,
  soft_delete_book,
}
use novelhub.Action.{Ident, ok, err, unique_violation}
use novelhub.Schema.{Db}
use novelhub.Admin.Edit.{AdminEnv, CreateBook, UpdateBook, create_book, update_book}
use novelhub.Admin.Revision.{UpdateChapter, get_chapter, update_chapter}
use novelhub.Admin.Edit.Rows.{HaveFreeLimits}
use novelhub.Admin.Edit.Limit.{create_book-HaveFreeLimits}
use novelhub.Admin.Revision.Text.{
  IsStored, edited, update_chapter-get_chapter, update_chapter-clash,
}
use novelhub.Chapters.Next.{HaveUniqueOrders}
use novelhub.Admin.Bulk.{IsAdding, bulk_create_chapters-AreAdded}
use novelhub.Admin.Import.{
  ImportTexts, BulkImportOptions, sections_of, default_delimiter, parse_sections,
  bulk_import_chapters,
}
use novelhub.Admin.Import.Atomic.{IsAllOrNothing, bulk_import_chapters-IsAllOrNothing}

-- A storage that lists the keys it was sent.
abbrev shelf : AdminStore (List String)
shelf = record {
  upload_text = λ key content t. some (key ∷ t);
  delete_object = λ key t. some t;
  set_preview = λ id text t. t;
  del_preview = λ id t. t;
  invalidate_list_caches = λ t. t;
}

abbrev drafts : List BulkChapter
drafts =
    record { title = "Three"; content = "It was a dark night."; is_free = none }
    ∷ record { title = "Four"; content = "The end."; is_free = some true }
    ∷ []

abbrev key : ℕ → String
key n = "chapters/1/new.txt"

sent : upload_all client shelf (uploads_of key 0 drafts) [] ≡ (true, key 1 ∷ key 0 ∷ [])
unfolding upload_all
sent = refl

at_least_one_is_free : clamp_free_chapter_limit (negsuc 4) ≡ 1
at_least_one_is_free = refl

unique_orders : HaveUniqueOrders library.chapters
unique_orders = (
  ((λ b o. refl), ((λ b o. absurd (ground arith)), tt)),
  (((λ b o. absurd (ground arith)), ((λ b o. refl), tt)), tt),
)

bulk_create_chapters-AreAdded_example : IsAdding client shelf key 1 drafts library []
bulk_create_chapters-AreAdded_example =
    bulk_create_chapters-AreAdded client shelf key 1 drafts novel library [] (key 1 ∷ key 0 ∷ [])
      client-IsDocumented unique_orders refl refl refl sent

-- A storage that keeps the last text of each key first.
abbrev archive : AdminStore (List (String × String))
archive = record {
  upload_text = λ key content t. some ((key, content) ∷ t);
  delete_object = λ key t. some t;
  set_preview = λ id text t. t;
  del_preview = λ id t. t;
  invalidate_list_caches = λ t. t;
}

abbrev text_at : String → List (String × String) → Option String
text_at key [] = none
text_at key ((k, text) ∷ t) = if str_eq k key then some text else text_at key t

archive-IsStored : IsStored archive text_at
archive-IsStored = record {
  get_text-upload_text = λ key text t t' e. cc (stored_first key text t);
  get_text-set_preview = λ key id preview t. refl;
}
  where
    stored_first :
        (key text : String) (t : List (String × String)) → text_at key ((key, text) ∷ t) ≡ some text
    stored_first key text t = rw (eq_refl key)

abbrev revision : UpdateChapter
revision = record {
  title = some "Two, again";
  content = some "A new text.";
  is_free = none;
  order = none;
}

update_chapter-get_chapter_example :
    (s : Db × List (String × String)) × (update_chapter client archive
        (λ b c. "key")
        2
        revision
        (library, [])
      ≡ (ok 2, s))
    × (get_chapter client archive text_at 2 s ≡ (ok (edited revision second "A new text."), s))
update_chapter-get_chapter_example =
    update_chapter-get_chapter client client-IsDocumented archive text_at archive-IsStored
      (λ b c. "key") revision second "A new text." library [] _ refl refl refl refl refl refl

-- The place of the first chapter.
update_chapter-clash_example :
    (t : List (String × String)) × (update_chapter client archive
        (λ b c. "key")
        2
        (record revision { order = some 1 })
        (library, [])
      ≡ (err unique_violation, (library, t)))
    × (text_at second.content_url t ≡ some "A new text.")
update_chapter-clash_example =
    update_chapter-clash client client-IsDocumented archive text_at archive-IsStored (λ b c. "key")
      (record revision { order = some 1 }) second "A new text." library [] _ opening refl refl refl
      refl refl

abbrev env : AdminEnv
env = record { free_chapter_limit = none; parse_int = λ s. none; public_r2_host = none }

create_book-HaveFreeLimits_example :
    ((dto : CreateBook) (now : ℕ)
      → HaveFreeLimits (create_book client shelf env dto now (library, [])).1.0)
    × ((id : Ident) (dto : UpdateBook)
        → HaveFreeLimits (update_book client shelf env id dto (library, [])).1.0)
    × ((new_key : ℕ → String) (id : Ident) (chapters : List BulkChapter)
        → HaveFreeLimits (bulk_create_chapters client shelf new_key id chapters (library, [])).1.0)
    × ((id : Ident) (now : ℕ)
        → HaveFreeLimits (soft_delete_book client shelf id now (library, [])).1.0)
    × ((texts : ImportTexts) (now : ℕ) (id : Ident) (text : String) (options : BulkImportOptions)
        → HaveFreeLimits
            (bulk_import_chapters client shelf texts now id text options (library, [])).1.0)
create_book-HaveFreeLimits_example =
    create_book-HaveFreeLimits client client-IsDocumented shelf env library [] (omega arith)

abbrev plain_texts : ImportTexts
plain_texts = record {
  import_key = λ book_id order index. "chapters/1/import.txt";
  chapter_title = λ order. "Chapter";
}

abbrev manuscript : String
manuscript = "Three\nIt was a dark night.\n\n---\n\nTitle only\n\n---\n\nFour\nThe end."

-- The section without a body keeps its place.
parse_manuscript :
    parse_sections plain_texts 1 2 0 (sections_of default_delimiter manuscript)
    ≡ record {
      order = 3;
      title = "Three";
      body = "It was a dark night.";
      key = "chapters/1/import.txt";
    }
      ∷ record { order = 5; title = "Four"; body = "The end."; key = "chapters/1/import.txt" }
      ∷ []
parse_manuscript = refl

bulk_import_chapters-IsAllOrNothing_example :
    IsAllOrNothing plain_texts 7 1 manuscript
      (record { delimiter = none; replace = true })
      library
      (bulk_import_chapters client shelf plain_texts 7 1 manuscript
        (record { delimiter = none; replace = true })
        (library, []))
bulk_import_chapters-IsAllOrNothing_example =
    bulk_import_chapters-IsAllOrNothing client shelf plain_texts 7 1 manuscript
      (record { delimiter = none; replace = true }) library [] client-IsDocumented
