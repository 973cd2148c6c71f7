-- ===== src/Web/Anonymous/Kept.antt =====
-- What a save leaves in the browser, and that it is loaded.
use Prim.Native.String.{String}
use text.Mathlib.TextPositions.{eq_refl}
use novelhub.Prelude.{
  ℕ, zero, suc, ◌-◌, ◌≤◌, ◌<◌, true, false, Option, some, List, [], ◌∷◌, length, take, leb, ◌≡◌,
  ◌⊎◌, ap, ◌∙◌, arith, All, inl, inr, length-take_le,
}
use novelhub.Prelude.Int.{ℤ}
use novelhub.Prisma.{matching, sort}
use novelhub.Prisma.Top.{matching-All, matching-holds}
use novelhub.Prisma.Apart.{AreApart, sort-first, take-AreApart, matching-AreApart, sort-AreApart}
use novelhub.Web.Json.{JsonCodec, IsDocumented}
use novelhub.Web.Storage.{BrowserStorage, IsStorage, stored, quota_exceeded}
use novelhub.Web.Anonymous.{
  ReadingProgressEntry, is_elsewhere, by_newest_first, text_of, without_oldest,
  max_anonymous_progress_entries, progress_of, load_anonymous_chapter_progress, next_entries,
  save_anonymous_reading_progress,
}
use novelhub.Web.Anonymous.Entries.{IsValid, elsewhere_sym}
use novelhub.Web.Anonymous.Written.{
  AreLoaded, load, load-AreLoaded, next-AreLoaded, take-AreLoaded, load_written, written, full,
  load-try_write,
}

-- At most 20 entries, no two of one chapter.
abbrev pub AreKept : List ReadingProgressEntry → Type 0
AreKept entries = (length entries ≤ max_anonymous_progress_entries) × AreApart is_elsewhere entries

length-take : {A : Type 0} (n : ℕ) (xs : List A) → length (take n xs) ≤ length xs
length-take zero xs = omega arith
length-take (suc n) [] = omega arith
length-take (suc n) (x ∷ xs) = omega (arith, length-take n xs)

take-AreKept :
    (n : ℕ) (entries : List ReadingProgressEntry) → AreKept entries → AreKept (take n entries)
take-AreKept n entries (few, apart) =
    (omega (arith, length-take n entries), take-AreApart _ n entries apart)

lt-leb-false : (n : ℕ) → 1 < n → leb n 1 ≡ false
lt-leb-false n h = ground arith

module _ {T S : Type 0} (codec : JsonCodec T) (date_parse : String → Option ℤ)
    (storage : BrowserStorage T S) (doc : IsDocumented codec) (law : IsStorage storage)
    (entry : ReadingProgressEntry) (valid : IsValid codec date_parse entry) where
  next-AreKept :
      (s : S)
      → AreApart is_elsewhere (load codec date_parse storage s)
      → AreKept (next_entries codec date_parse storage entry s)
  unfolding next_entries
  next-AreKept s apart =
      let rest = matching (is_elsewhere entry) (load codec date_parse storage s) in
      (
        length-take_le 20 _,
        take-AreApart is_elsewhere 20 _ (
            sort-AreApart is_elsewhere (by_newest_first codec date_parse) elsewhere_sym
              (entry ∷ rest)
              (
                matching-holds (is_elsewhere entry) _,
                matching-AreApart is_elsewhere (is_elsewhere entry) _ apart,
              )),
      )

  -- A save of a valid entry keeps at most 20 entries in the browser, valid, newest first and no two
  -- of one chapter, whether the storage takes them, has room once the oldest is dropped, or throws.
  pub save_anonymous_reading_progress-AreKept :
      (s : S)
      → AreKept (load codec date_parse storage s)
      → AreKept (
          load codec date_parse storage
            (save_anonymous_reading_progress codec date_parse (some storage) entry s))
        × AreLoaded codec date_parse (
            load codec date_parse storage
              (save_anonymous_reading_progress codec date_parse (some storage) entry s))
  unfolding save_anonymous_reading_progress
  save_anonymous_reading_progress-AreKept s h =
      let next = next_entries codec date_parse storage entry s in
      let kept = next-AreKept s h.1 in
      (
        load-try_write codec date_parse storage doc law AreKept next s
            (next-AreLoaded codec date_parse storage entry s valid) h kept
            (take-AreKept (length next - 1) next kept),
        load-AreLoaded codec date_parse storage _,
      )

  -- The storage takes the new entries, or it lacks room for them and takes those without the oldest.
  abbrev pub HasRoom : S → Type 0
  HasRoom s =
      let next = next_entries codec date_parse storage entry s in
      let out = storage.set_item (text_of codec date_parse next) s in
      (out.0 ≡ stored)
      ⊎ ((out.0 ≡ quota_exceeded)
          × (1 < length next)
          × ((storage.set_item (text_of codec date_parse (without_oldest next)) out.1).0 ≡ stored))

  -- The new entry comes first.
  next-first :
      (s : S)
      → All (λ e. by_newest_first codec date_parse entry e ≡ true) (load codec date_parse storage s)
      → (rest : List ReadingProgressEntry) × (next_entries codec date_parse storage entry s
          ≡ entry ∷ rest)
  unfolding next_entries
  next-first s newest =
      let before = by_newest_first codec date_parse in
      let others = matching (is_elsewhere entry) (load codec date_parse storage s) in
      (
        take 19 (sort before others),
        rw (sort-first before entry others (matching-All _ (is_elsewhere entry) _ newest)),
      )

  without_oldest-first :
      (rest : List ReadingProgressEntry)
      → 1 < length (entry ∷ rest)
      → (rest' : List ReadingProgressEntry) × (without_oldest (entry ∷ rest) ≡ entry ∷ rest')
  without_oldest-first [] h = absurd (omega arith)
  without_oldest-first (e ∷ rest) h = (
    take (length rest) (e ∷ rest),
    let n : suc (suc (length rest)) - 1 ≡ suc (length rest) = omega arith in rw n,
  )

  found :
      (s : S) (rest : List ReadingProgressEntry)
      → load codec date_parse storage s ≡ entry ∷ rest
      → load_anonymous_chapter_progress codec date_parse
          (some storage)
          entry.book_id
          entry.chapter_id
          s
        ≡ some (progress_of entry)
  unfolding load_anonymous_chapter_progress
  found s rest e =
      rw (load_anonymous_chapter_progress, e) (rw (eq_refl entry.book_id, eq_refl entry.chapter_id))

  accepted :
      (s : S) (entries rest : List ReadingProgressEntry)
      → AreLoaded codec date_parse entries
      → entries ≡ entry ∷ rest
      → (storage.set_item (text_of codec date_parse entries) s).0 ≡ stored
      → load_anonymous_chapter_progress codec date_parse
          (some storage)
          entry.book_id
          entry.chapter_id
          (storage.set_item (text_of codec date_parse entries) s).1
        ≡ some (progress_of entry)
  accepted s entries rest h starts e =
      let s' = (storage.set_item (text_of codec date_parse entries) s).1 in
      found s' rest
        (load_written codec date_parse storage doc law entries s s' h (λ i. (e i, s')) ∙ starts)

  -- A reader finds the place again that was saved last: an entry that is as new as those before it
  -- is what `loadAnonymousChapterProgress` gives for its chapter, provided that the storage takes
  -- the entries, at once or without the oldest.
  pub save_anonymous_reading_progress-load_anonymous_chapter_progress :
      (s : S)
      → All (λ e. by_newest_first codec date_parse entry e ≡ true) (load codec date_parse storage s)
      → HasRoom s
      → load_anonymous_chapter_progress codec date_parse
          (some storage)
          entry.book_id
          entry.chapter_id
          (save_anonymous_reading_progress codec date_parse (some storage) entry s)
        ≡ some (progress_of entry)
  unfolding save_anonymous_reading_progress
  save_anonymous_reading_progress-load_anonymous_chapter_progress s newest room =
      let next = next_entries codec date_parse storage entry s in
      let (rest, starts) = next-first s newest in
      let loaded = next-AreLoaded codec date_parse storage entry s valid in
      elim room [
        | inl e ↦
            rw (written codec date_parse storage next s e) (accepted s next rest loaded starts e)
        | inr (q, more, e) ↦
            let (rest', starts') = without_oldest-first rest (rw starts at more) in
            rw (full codec date_parse storage next s q, lt-leb-false (length next) more)
              (accepted _ (without_oldest next) rest'
                (take-AreLoaded codec date_parse (length next - 1) next loaded)
                (ap without_oldest starts ∙ starts') e)
      ]
