-- ===== src/Progress/Saved.antt =====
-- `save` and `findOne` of reading-progress.service.ts, beside the access rule of the chapter's page.
use novelhub.Prelude.{
  ℕ, true, false, none, some, List, [], ◌∷◌, ◌≡◌, ◌≢◌, ◌∙◌, is_none, is_some, refl, sym, arith, All,
  All-append, All-map, Bool, head?, inl, inr, Bool-cases, Option-cases, ◌&&◌,
}
use novelhub.Action.{Ident, ok, err, domain, not_found}
use novelhub.Prisma.{
  Prisma, IsDocumented, Uuid, on_lists, uuid_of, eq_on_lists, first, update_rows, upsert_row,
}
use novelhub.Prisma.Rows.{first-All, first-holds, first-last, none-All}
use novelhub.Prisma.Top.{top-has, top-holds, top-none}
use novelhub.Schema.{Book, Chapter, ReadingProgress, Db}
use novelhub.Catalog.{find_chapter, is_book, is_stored_chapter}
use novelhub.Chapters.{is_unlocked_for, has_chapter_unlock}
use novelhub.Progress.{
  Number, ProgressResponse, to_progress_response, clamp_scroll_percent, is_progress_of, is_queried,
  read_last, put_progress, new_progress, is_readable_chapter, user_can_read, find_readable,
  upsert_progress, save, find_one,
}

-- The first row that meets two conditions is the first that meets one, if it meets the other.
first_both :
    {Row : Type 0} (p q : Row → Bool) (rows : List Row) (c : Row)
    → first p rows ≡ some c
    → q c ≡ true
    → first (λ r. p r && q r) rows ≡ some c
first_both p q [] c e h = cc
first_both p q (r ∷ rows) c e h = ground (arith, first_both p q rows c)

last_total : (r s : ReadingProgress) → read_last r s ≡ false → read_last s r ≡ true
last_total r s h = ground arith

last_trans :
    (r s t : ReadingProgress) → read_last r s ≡ true → read_last s t ≡ true → read_last r t ≡ true
last_trans r s t h k = ground arith

module _ (w : ReadingProgress → Bool) (f : ReadingProgress → ReadingProgress) where
  update_rows-writes :
      (P : ReadingProgress → Type 0)
      → ((r : ReadingProgress) → P (f r))
      → (rows : List ReadingProgress) → All (λ r. w r ≡ true → P r) (update_rows w f rows)
  update_rows-writes P h [] = tt
  update_rows-writes P h (r ∷ rows) = elim (Bool-cases (w r)) [
    | inl e ↦ rw e ((λ _. h r), update_rows-writes P h rows)
    | inr e ↦ rw e ((λ t. cc), update_rows-writes P h rows)
  ]

  first-update_rows :
      ((r : ReadingProgress) → w r ≡ true → w (f r) ≡ true)
      → (rows : List ReadingProgress) (r : ReadingProgress) → first w rows ≡ some r
      → first w (update_rows w f rows) ≡ some (f r)
  first-update_rows k [] r e = cc
  first-update_rows k (x ∷ rows) r e = elim (Bool-cases (w x)) [
    | inl q ↦ let same : x ≡ r = ground arith in ground (arith, k x q)
    | inr q ↦ rw q (rw q (first-update_rows k rows r (rw q at e)))
  ]

module _ (uuid : Uuid) (user_id chapter_id : Ident) (scroll : Number) (now : ℕ) (db : Db)
    (c : Chapter) where
  abbrev position : ℕ
  position = clamp_scroll_percent scroll

  abbrev new_row : ReadingProgress
  new_row =
      new_progress (uuid ReadingProgress (λ p. p.id) db.progress) user_id chapter_id c position now

  abbrev saved_rows : List ReadingProgress
  saved_rows =
      upsert_row (is_progress_of user_id chapter_id) new_row (put_progress c position now)
        db.progress

  abbrev saved : Db
  saved = record db { progress = saved_rows }

  abbrev IsSaved : ReadingProgress → Type 0
  IsSaved p = (p.scroll_position ≡ position) × (p.last_read_at ≡ now)

  new_row_is_of : is_progress_of user_id chapter_id new_row ≡ true
  new_row_is_of = ground arith

  All-IsSaved : All (λ p. is_progress_of user_id chapter_id p ≡ true → IsSaved p) saved_rows
  All-IsSaved = elim (Option-cases (first (is_progress_of user_id chapter_id) db.progress)) [
    | inl e ↦
        rw (upsert_row, e)
          (All-append _ db.progress
            (All-map _ _ db.progress (λ r no yes. cc)
              (none-All (is_progress_of user_id chapter_id) db.progress e))
            (λ _. (refl, refl)))
    | inr (r, e) ↦
        rw (upsert_row, e)
          (update_rows-writes (is_progress_of user_id chapter_id) (put_progress c position now)
            IsSaved (λ r. (refl, refl)) db.progress)
  ]

  one_saved :
      (r : ReadingProgress) × (first (is_progress_of user_id chapter_id) saved_rows ≡ some r)
  one_saved = elim (Option-cases (first (is_progress_of user_id chapter_id) db.progress)) [
    | inl e ↦ (
      new_row,
      rw (upsert_row, e)
          (first-last (is_progress_of user_id chapter_id) db.progress new_row e new_row_is_of),
    )
    | inr (r, e) ↦ (
      put_progress c position now r,
      rw (upsert_row, e) (first-update_rows _ _ (λ r h. ground arith) db.progress r e),
    )
  ]

  module _ (b : Book) (f : find_chapter (on_lists uuid) chapter_id db ≡ (ok (c, b), db)) where
    page_finds :
        (first (is_stored_chapter chapter_id) db.chapters ≡ some c)
        × (first (is_book c.book_id) db.books ≡ some b)
        × (b.deleted_at ≡ none)
    unfolding find_chapter
    page_finds = (ground arith, ground arith, ground arith)

    same_rule :
        user_can_read (on_lists uuid) user_id c now db
        ≡ is_unlocked_for (on_lists uuid) c (some user_id) now db
    unfolding user_can_read is_unlocked_for has_chapter_unlock
    same_rule = ground arith

    finds : first (is_readable_chapter (on_lists uuid) chapter_id db) db.chapters ≡ some c
    finds =
        let (stored, has_book, there) = page_finds in
        let live : is_none b.deleted_at ≡ true = rw there refl in
        first_both (is_stored_chapter chapter_id)
          (λ r. is_some (first (λ b. is_book r.book_id b && is_none b.deleted_at) db.books))
          db.chapters c stored
          (let found =
              first_both (is_book c.book_id) (λ b. is_none b.deleted_at) db.books b has_book live in
            rw found refl)

    allowed :
        is_unlocked_for (on_lists uuid) c (some user_id) now db ≡ true
        → find_readable (on_lists uuid) user_id chapter_id now db ≡ some c
    unfolding find_readable
    allowed u = let g = same_rule in let h = finds in ground (arith, g, h, u)

    shut :
        is_unlocked_for (on_lists uuid) c (some user_id) now db ≡ false
        → find_readable (on_lists uuid) user_id chapter_id now db ≡ none
    unfolding find_readable
    shut u = let g = same_rule in let h = finds in ground (arith, g, h, u)

    runs :
        is_unlocked_for (on_lists uuid) c (some user_id) now db ≡ true
        → (p : ReadingProgress) × (save (on_lists uuid) user_id chapter_id scroll now db
            ≡ (ok (to_progress_response p), saved))
          × IsSaved p
    unfolding save upsert_progress
    runs u =
        let (p, e) = one_saved in
        let g = allowed u in
        let holds = first-holds (is_progress_of user_id chapter_id) saved_rows p e in
        (
          p,
          ground (arith, g, e),
          first-All (λ p. is_progress_of user_id chapter_id p ≡ true → IsSaved p)
              (is_progress_of user_id chapter_id) saved_rows p All-IsSaved e holds,
        )

    refused :
        is_unlocked_for (on_lists uuid) c (some user_id) now db ≡ false
        → save (on_lists uuid) user_id chapter_id scroll now db ≡ (err (domain not_found none), db)
    unfolding save
    refused u = let g = shut u in rw g refl

  shown :
      chapter_id ≢ 0
      → (q : ProgressResponse) × (find_one (on_lists uuid) user_id none (some chapter_id) saved
          ≡ some q)
        × (q.scroll_percent ≡ position)
        × (q.last_read_at ≡ now)
  unfolding find_one
  shown z =
      let w = is_queried user_id none (some chapter_id) in
      elim (Option-cases (head? ((on_lists uuid).find_many w read_last 0 1 saved_rows))) [
        | inr (q, e) ↦
            let holds = top-holds read_last last_total last_trans w saved_rows q e in
            let fields =
              top-has read_last last_total last_trans w saved_rows q e _ All-IsSaved
                (ground (arith, holds)) in
            (to_progress_response q, rw (find_one, e) refl, fields.0, fields.1)
        | inl e ↦
            let (p, found) = one_saved in
            let no =
              first-All (λ p. w p ≡ false) (is_progress_of user_id chapter_id) saved_rows p
                (top-none read_last w saved_rows e) found in
            let holds = first-holds (is_progress_of user_id chapter_id) saved_rows p found in
            absurd (ground (arith, no, holds))
      ]

-- A reader who may read a stored chapter can save how far it is read, and asking for the progress
-- of the chapter then gives what was saved: the position, rounded and kept within 0 and 100, and
-- the time.
pub save-find_one :
    (prisma : Prisma) (user_id chapter_id : Ident) (scroll : Number) (now : ℕ) (db : Db)
    (c : Chapter) (b : Book)
    → IsDocumented prisma
    → chapter_id ≢ 0
    → find_chapter prisma chapter_id db ≡ (ok (c, b), db)
    → is_unlocked_for prisma c (some user_id) now db ≡ true
    → (p q : ProgressResponse) × (db' : Db) × (save prisma user_id chapter_id scroll now db
        ≡ (ok p, db'))
      × (find_one prisma user_id none (some chapter_id) db' ≡ some q)
      × (q.scroll_percent ≡ p.scroll_percent)
      × (q.last_read_at ≡ now)
      × (p.scroll_percent ≡ clamp_scroll_percent scroll)
save-find_one prisma user_id chapter_id scroll now db c b doc z = rw (eq_on_lists prisma doc) λ f u.
    let uuid = uuid_of prisma in
    let (p, e, fields) = runs uuid user_id chapter_id scroll now db c b f u in
    let (q, found, same, at) = shown uuid user_id chapter_id scroll now db c z in
    (
      to_progress_response p,
      q,
      saved uuid user_id chapter_id scroll now db c,
      e,
      found,
      same ∙ sym fields.0,
      at,
      fields.0,
    )

-- Saving the progress of a chapter whose page is locked for the reader answers 404, as for a
-- chapter that does not exist, and changes nothing.
pub save-locked :
    (prisma : Prisma) (user_id chapter_id : Ident) (scroll : Number) (now : ℕ) (db : Db)
    (c : Chapter) (b : Book)
    → IsDocumented prisma
    → find_chapter prisma chapter_id db ≡ (ok (c, b), db)
    → is_unlocked_for prisma c (some user_id) now db ≡ false
    → save prisma user_id chapter_id scroll now db ≡ (err (domain not_found none), db)
save-locked prisma user_id chapter_id scroll now db c b doc =
    rw (eq_on_lists prisma doc)
      λ f u. refused (uuid_of prisma) user_id chapter_id scroll now db c b f u
