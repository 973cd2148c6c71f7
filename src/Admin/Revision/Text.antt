-- ===== src/Admin/Revision/Text.antt =====
-- The text of a chapter that the administration changes.
use Prim.Native.String.{String}
use novelhub.Prelude.{
  Bool, true, false, Option, none, some, List, [], ◌∷◌, ◌≡◌, refl, arith, inl, inr, Bool-cases, not,
  ◌&&◌, ◌∙◌, ap, get_or, if◌then◌else◌,
}
use novelhub.Prelude.Text.{is_empty}
use novelhub.Action.{
  Ident, Exec, Result, ok, err, unique_violation, pure, modify, match_option, ◌>>=◌, ◌>>◌,
}
use novelhub.Action.Runs.{bind-ok}
use novelhub.Prisma.{Prisma, IsDocumented, Uuid, on_lists, uuid_of, eq_on_lists, first, update_rows}
use novelhub.Prisma.Rows.{first-holds}
use novelhub.Schema.{Action, Chapter, chapter_clash, Db}
use novelhub.Catalog.{is_chapter, is_stored_chapter}
use novelhub.Chapters.{take_chars, preview_length}
use novelhub.Admin.{AdminStore, on_db, update_chapter_row}
use novelhub.Admin.Revision.{
  UpdateChapter, AdminChapter, admin_chapter, read_content, set_chapter, has_data, find_chapter_row,
  get_chapter, upload_text, update_found, update_chapter,
}

-- What the storage does: a text that is uploaded is read, also after the preview is cached.
pub record IsStored {T : Type 0} (store : AdminStore T) (get_text : String → T → Option String)
    : Type 0 where
  pub get_text-upload_text :
      (key text : String) (t t' : T)
      → store.upload_text key text t ≡ some t'
      → get_text key t' ≡ some text
  pub get_text-set_preview :
      (key : String) (id : Ident) (preview : String) (t : T)
      → get_text key (store.set_preview id preview t) ≡ get_text key t

-- The place of a chapter's text.
abbrev pub key_for : (Ident → Ident → String) → Chapter → String
key_for key_of c = if is_empty c.content_url then key_of c.book_id c.id else c.content_url

-- No other chapter stands in the place that the change gives.
abbrev pub is_other : Ident → Chapter → Chapter → Bool
is_other id new c = not (is_chapter id c) && chapter_clash new c

first-update_rows :
    (id : Ident) (f : Chapter → Chapter) (c : Chapter) (rows : List Chapter)
    → first (is_stored_chapter id) rows ≡ some c
    → is_stored_chapter id (f c) ≡ true
    → first (is_chapter id) rows ≡ some c
    → first (is_stored_chapter id) (update_rows (is_chapter id) f rows) ≡ some (f c)
first-update_rows id f c [] h k l = absurd (ground arith)
first-update_rows id f c (r ∷ rows) h k l = elim (Bool-cases (is_chapter id r)) [
  | inl e ↦ let same : r ≡ c = ground (arith, l, e) in rw e (rw (same, k))
  | inr e ↦
      rw (e, e) (first-update_rows id f c rows (ground (arith, h, e)) k (ground (arith, l, e)))
]

stored_holds :
    {c : Chapter} (id : Ident) (rows : List Chapter)
    → first (is_stored_chapter id) rows ≡ some c
    → is_stored_chapter id c ≡ true
stored_holds id rows e = ground (arith, first-holds (is_stored_chapter id) rows _ e)

module _ (uuid : Uuid) {T : Type 0} (store : AdminStore T) (key_of : Ident → Ident → String)
    (dto : UpdateChapter) (c : Chapter) (text : String) (db : Db) (t t' : T)
    (found : first (is_stored_chapter c.id) db.chapters ≡ some c) (given : dto.content ≡ some text)
    (sent : store.upload_text (key_for key_of c) text t ≡ some t') where
  abbrev key : String
  key = key_for key_of c

  -- The storage once the text is sent and its preview is cached.
  abbrev previewed : T
  previewed = store.set_preview c.id (take_chars preview_length text) t'

  data_given : has_data dto ≡ true
  data_given = ground (arith, given)

  found_row : find_chapter_row (on_lists uuid) store c.id (db, t) ≡ (ok c, (db, t))
  unfolding find_chapter_row
  found_row = rw (find_chapter_row, found)

  uploaded : upload_text (on_lists uuid) store key text (db, t) ≡ (ok tt, (db, t'))
  unfolding upload_text
  uploaded = rw (upload_text, sent)

  -- `cache.set` of the preview.
  abbrev cached : String → Exec (Db × T) (Unit {0})
  cached content =
      modify (λ (d, s). (d, store.set_preview c.id (take_chars preview_length content) s))

  abbrev sends_text : Exec (Db × T) (Unit {0})
  sends_text =
      match_option dto.content (pure tt)
        (λ content. upload_text (on_lists uuid) store key content >> cached content)

  abbrev changes_row : Exec (Db × T) Ident
  changes_row =
      (if has_data dto
        then on_db (on_lists uuid) store
            (update_chapter_row (on_lists uuid) c.id (set_chapter dto key))
        else pure tt)
      >> pure c.id

  stored_text : sends_text (db, t) ≡ (ok tt, (db, previewed))
  stored_text =
      rw given
        (bind-ok (upload_text (on_lists uuid) store key text) (λ _. cached text) (db, t) uploaded)

  abbrev answered : Result (Unit {0}) × Db → Result Ident × (Db × T)
  answered (ok _, db') = (ok c.id, (db', previewed))
  answered (err e, db') = (err e, (db', previewed))

  finishes :
      (changes : Bool) (m : Action (Unit {0}))
      → changes ≡ true
      → ((if changes then on_db (on_lists uuid) store m else pure tt) >> pure c.id) (db, previewed)
        ≡ answered (m db)
  finishes changes m e = rw e (by_result (m db))
    where
      by_result :
          (out : Result (Unit {0}) × Db)
          → elim out.0 as (λ _. Result Ident × (Db × T)) [
            | ok _ ↦ (ok c.id, (out.1, previewed))
            | err x ↦ (err x, (out.1, previewed))
          ]
            ≡ answered out
      by_result (ok _, db') = refl
      by_result (err x, db') = refl

  -- The text is stored before the row is changed.
  updates :
      update_chapter (on_lists uuid) store key_of c.id dto (db, t)
      ≡ answered (update_chapter_row (on_lists uuid) c.id (set_chapter dto key) db)
  unfolding update_chapter update_found
  updates =
      bind-ok (find_chapter_row (on_lists uuid) store c.id)
        (update_found (on_lists uuid) store key_of c.id dto) (db, t) found_row
      ∙ (bind-ok sends_text (λ _. changes_row) (db, t) stored_text
          ∙ finishes (has_data dto) (update_chapter_row (on_lists uuid) c.id (set_chapter dto key))
              data_given)

  -- The row is free to take its new place.
  changes :
      first (is_chapter c.id) db.chapters ≡ some c
      → first (is_other c.id (set_chapter dto key c)) db.chapters ≡ none
      → update_chapter_row (on_lists uuid) c.id (set_chapter dto key) db ≡ (
        ok tt,
        record db { chapters = update_rows (is_chapter c.id) (set_chapter dto key) db.chapters },
      )
  unfolding update_chapter_row
  changes only free = rw (update_chapter_row, only, free)

  clashes :
      (other : Chapter)
      → first (is_chapter c.id) db.chapters ≡ some c
      → first (is_other c.id (set_chapter dto key c)) db.chapters ≡ some other
      → update_chapter_row (on_lists uuid) c.id (set_chapter dto key) db
        ≡ (err unique_violation, db)
  unfolding update_chapter_row
  clashes other only taken = rw (update_chapter_row, only, taken)

  -- The row after the change.
  abbrev row : Chapter
  row = set_chapter dto key c

  abbrev changed : Db
  changed = record db { chapters = update_rows (is_chapter c.id) (set_chapter dto key) db.chapters }

  module _ (get_text : String → T → Option String) (law : IsStored store get_text)
      (named : is_empty (key_of c.book_id c.id) ≡ false)
      (only : first (is_chapter c.id) db.chapters ≡ some c) where
    key_named : is_empty key ≡ false
    key_named = elim (Bool-cases (is_empty c.content_url)) [
      | inl e ↦ rw e named
      | inr e ↦ rw (e, e) refl
    ]

    row_found :
        find_chapter_row (on_lists uuid) store c.id (changed, previewed)
        ≡ (ok row, (changed, previewed))
    unfolding find_chapter_row
    row_found = rw (
      find_chapter_row,
      first-update_rows c.id (set_chapter dto key) c db.chapters found
          (stored_holds c.id db.chapters found) only,
    )

    text_there : get_text key previewed ≡ some text
    text_there =
        law.get_text-set_preview key c.id (take_chars preview_length text) t'
        ∙ law.get_text-upload_text key text t t' sent

    text_read :
        read_content (on_lists uuid) store get_text row (changed, previewed)
        ≡ (ok text, (changed, previewed))
    unfolding read_content
    text_read = rw (read_content, given, key_named, text_there)

    reads :
        get_chapter (on_lists uuid) store get_text c.id (changed, previewed)
        ≡ (ok (admin_chapter row text), (changed, previewed))
    unfolding get_chapter
    reads =
        bind-ok (find_chapter_row (on_lists uuid) store c.id)
          (λ r. read_content (on_lists uuid) store get_text r >>= λ content.
            pure (admin_chapter r content))
          (changed, previewed) row_found
        ∙ bind-ok (read_content (on_lists uuid) store get_text row)
            (λ content. pure (admin_chapter row content)) (changed, previewed) text_read

-- The chapter `c` as the administration sees it after the change, with a new text.
abbrev pub edited : UpdateChapter → Chapter → String → AdminChapter
edited dto c text = record {
  id = c.id;
  book_id = c.book_id;
  order = get_or dto.order c.order;
  title = get_or dto.title c.title;
  is_free = get_or dto.is_free c.is_free;
  content = text;
}

module _ {T : Type 0} (prisma : Prisma) (doc : IsDocumented prisma) (store : AdminStore T)
    (get_text : String → T → Option String) (law : IsStored store get_text)
    (key_of : Ident → Ident → String) (dto : UpdateChapter) (c : Chapter) (text : String) (db : Db)
    (t t' : T) where
  -- A change of a chapter with a new text returns, and then the chapter is read with that text and
  -- with the given title, place and freedom of charge, provided that the storage takes the text and
  -- that no other chapter stands in the place: the chapter `c` is the stored row of its id, and the
  -- key of a chapter's text is not empty.
  pub update_chapter-get_chapter :
      first (is_stored_chapter c.id) db.chapters ≡ some c
      → first (is_chapter c.id) db.chapters ≡ some c
      → is_empty (key_of c.book_id c.id) ≡ false
      → dto.content ≡ some text
      → store.upload_text (key_for key_of c) text t ≡ some t'
      → first (is_other c.id (set_chapter dto (key_for key_of c) c)) db.chapters ≡ none
      → (s : Db × T) × (update_chapter prisma store key_of c.id dto (db, t) ≡ (ok c.id, s))
        × (get_chapter prisma store get_text c.id s ≡ (ok (edited dto c text), s))
  update_chapter-get_chapter found only named given sent free = rw (eq_on_lists prisma doc) (
      let uuid = uuid_of prisma in
      (
        (
          changed uuid store key_of dto c text db t t' found given sent,
          previewed uuid store key_of dto c text db t t' found given sent,
        ),
        updates uuid store key_of dto c text db t t' found given sent
            ∙ ap (answered uuid store key_of dto c text db t t' found given sent)
                (changes uuid store key_of dto c text db t t' found given sent only free),
        reads uuid store key_of dto c text db t t' found given sent get_text law named only,
      ))

  -- A change that moves a chapter to the place of another fails with the unique violation and
  -- changes no row, and yet the new text stands in the storage, since it is uploaded first.
  pub update_chapter-clash :
      (other : Chapter)
      → first (is_stored_chapter c.id) db.chapters ≡ some c
      → first (is_chapter c.id) db.chapters ≡ some c
      → dto.content ≡ some text
      → store.upload_text (key_for key_of c) text t ≡ some t'
      → first (is_other c.id (set_chapter dto (key_for key_of c) c)) db.chapters ≡ some other
      → (t'' : T) × (update_chapter prisma store key_of c.id dto (db, t)
          ≡ (err unique_violation, (db, t'')))
        × (get_text (key_for key_of c) t'' ≡ some text)
  update_chapter-clash other found only given sent taken = rw (eq_on_lists prisma doc) (
      let uuid = uuid_of prisma in
      (
        previewed uuid store key_of dto c text db t t' found given sent,
        updates uuid store key_of dto c text db t t' found given sent
            ∙ ap (answered uuid store key_of dto c text db t t' found given sent)
                (clashes uuid store key_of dto c text db t t' found given sent other only taken),
        law.get_text-set_preview _ c.id (take_chars preview_length text) t'
            ∙ law.get_text-upload_text _ text t t' sent,
      ))
