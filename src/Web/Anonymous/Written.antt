-- ===== src/Web/Anonymous/Written.antt =====
-- What a load finds after a write, whatever the storage answers.
use Prim.Native.String.{String}
use novelhub.Prelude.{
  ℕ, ◌-◌, Option, none, some, List, [], ◌∷◌, length, take, get_or, leb, ◌≡◌, ◌≢◌, ◌⊎◌, refl, All,
  inl, inr, Bool-cases, Option-cases, if◌then◌else◌,
}
use novelhub.Prelude.Int.{ℤ}
use novelhub.Prisma.{matching, sort}
use novelhub.Prisma.Top.{sort-All, matching-All}
use novelhub.Prisma.Sorted.{IsSorted}
use novelhub.Prisma.Apart.{take-All, take-IsSorted, sort-eq}
use novelhub.Web.Json.{JsonCodec, IsDocumented, Json, null, boolean, number, string, array, object}
use novelhub.Web.Storage.{BrowserStorage, IsStorage, SetResult, stored, quota_exceeded, refused}
use novelhub.Web.Anonymous.{
  ReadingProgressEntry, is_elsewhere, by_newest_first, parse_entries, entries_of, text_of,
  without_oldest, load_anonymous_reading_progress, try_write_anonymous_reading_progress,
  next_entries,
}
use novelhub.Web.Anonymous.Entries.{
  IsValid, sort-newest, entries_of-IsValid, entries_of-items_json, are_plain-items_json,
}

SetResult-cases : (r : SetResult) → (r ≡ stored) ⊎ ((r ≡ quota_exceeded) ⊎ (r ≡ refused))
SetResult-cases stored = inl refl
SetResult-cases quota_exceeded = inr (inl refl)
SetResult-cases refused = inr (inr refl)

module _ {T : Type 0} (codec : JsonCodec T) (date_parse : String → Option ℤ) where
  -- Entries as a load gives them: valid and newest first.
  abbrev pub AreLoaded : List ReadingProgressEntry → Type 0
  AreLoaded entries =
      All (IsValid codec date_parse) entries × IsSorted (by_newest_first codec date_parse) entries

  sorted-AreLoaded :
      (entries : List ReadingProgressEntry)
      → All (IsValid codec date_parse) entries
      → AreLoaded (sort (by_newest_first codec date_parse) entries)
  sorted-AreLoaded entries h = (sort-All _ _ entries h, sort-newest codec date_parse entries)

  pub take-AreLoaded :
      (n : ℕ) (entries : List ReadingProgressEntry) → AreLoaded entries → AreLoaded (take n entries)
  take-AreLoaded n entries h = (take-All _ n entries h.0, take-IsSorted _ n entries h.1)

  parsed-AreLoaded :
      (parsed : Option Json)
      → AreLoaded (elim parsed as (λ _. List ReadingProgressEntry) [
        | some (array items) ↦
            sort (by_newest_first codec date_parse) (get_or (entries_of codec date_parse items) [])
        | _ ↦ []
      ])
  parsed-AreLoaded none = (tt, tt)
  parsed-AreLoaded (some null) = (tt, tt)
  parsed-AreLoaded (some (boolean b)) = (tt, tt)
  parsed-AreLoaded (some (number n)) = (tt, tt)
  parsed-AreLoaded (some (string s)) = (tt, tt)
  parsed-AreLoaded (some (object s)) = (tt, tt)
  parsed-AreLoaded (some (array items)) =
      sorted-AreLoaded _ (entries_of-IsValid codec date_parse items)

  parse_entries-AreLoaded : (raw : T) → AreLoaded (parse_entries codec date_parse raw)
  unfolding parse_entries
  parse_entries-AreLoaded raw = elim (Bool-cases (codec.is_blank raw)) [
    | inl e ↦ rw e (tt, tt)
    | inr e ↦ rw e (parsed-AreLoaded (codec.parse raw))
  ]

  parse_entries-text_of :
      IsDocumented codec
      → (entries : List ReadingProgressEntry) → AreLoaded entries
      → parse_entries codec date_parse (text_of codec date_parse entries) ≡ entries
  unfolding parse_entries
  parse_entries-text_of doc entries h =
      rw
        (
          doc.stringify_not_blank _,
          doc.parse-stringify _ (are_plain-items_json entries),
          entries_of-items_json codec date_parse entries h.0,
        )
        (sort-eq _ entries h.1)

  module _ {S : Type 0} (storage : BrowserStorage T S) where
    abbrev pub load : S → List ReadingProgressEntry
    load = load_anonymous_reading_progress codec date_parse (some storage)

    pub load-AreLoaded : (s : S) → AreLoaded (load s)
    unfolding load_anonymous_reading_progress
    load-AreLoaded s = elim (Option-cases (storage.get_item s)) [
      | inl e ↦ rw e (tt, tt)
      | inr (none, e) ↦ rw e (tt, tt)
      | inr (some raw, e) ↦ rw e (parse_entries-AreLoaded raw)
    ]

    pub next-AreLoaded :
        (entry : ReadingProgressEntry) (s : S)
        → IsValid codec date_parse entry
        → AreLoaded (next_entries codec date_parse storage entry s)
    unfolding next_entries
    next-AreLoaded entry s v = take-AreLoaded 20 _ (
        sorted-AreLoaded (entry ∷ matching (is_elsewhere entry) (load s))
          (v, matching-All _ _ _ (load-AreLoaded s).0))

    -- What the storage accepts is what is loaded.
    pub load_written :
        IsDocumented codec
        → IsStorage storage
        → (entries : List ReadingProgressEntry) (s s' : S) → AreLoaded entries
        → storage.set_item (text_of codec date_parse entries) s ≡ (stored, s')
        → load s' ≡ entries
    unfolding load_anonymous_reading_progress
    load_written doc law entries s s' h e =
        rw (law.get_item-set_item _ s s' e) (parse_entries-text_of doc entries h)

    load_kept :
        IsStorage storage
        → (value : T) (s s' : S) (r : SetResult) → storage.set_item value s ≡ (r, s')
        → r ≢ stored
        → load s' ≡ load s
    unfolding load_anonymous_reading_progress
    load_kept law value s s' r e n = rw (law.set_item_throws value s s' r e n)

    -- The three answers to the first write.
    module _ (entries : List ReadingProgressEntry) (s : S) where
      pub written :
          (storage.set_item (text_of codec date_parse entries) s).0 ≡ stored
          → try_write_anonymous_reading_progress codec date_parse storage entries s
            ≡ (storage.set_item (text_of codec date_parse entries) s).1
      unfolding try_write_anonymous_reading_progress
      written e = rw (e, try_write_anonymous_reading_progress)

      refused_write :
          (storage.set_item (text_of codec date_parse entries) s).0 ≡ refused
          → try_write_anonymous_reading_progress codec date_parse storage entries s
            ≡ (storage.set_item (text_of codec date_parse entries) s).1
      unfolding try_write_anonymous_reading_progress
      refused_write e = rw (e, try_write_anonymous_reading_progress)

      pub full :
          (storage.set_item (text_of codec date_parse entries) s).0 ≡ quota_exceeded
          → try_write_anonymous_reading_progress codec date_parse storage entries s ≡ (
              if leb (length entries) 1
              then (storage.set_item (text_of codec date_parse entries) s).1
              else (storage.set_item
                  (text_of codec date_parse (without_oldest entries))
                  (storage.set_item (text_of codec date_parse entries) s).1).1)
      unfolding try_write_anonymous_reading_progress
      full e = rw (e, try_write_anonymous_reading_progress)

    module _ (doc : IsDocumented codec) (law : IsStorage storage) where
      -- One `setItem` leaves the old entries or the new ones.
      load-set_item :
          (P : List ReadingProgressEntry → Type 0) (entries : List ReadingProgressEntry) (s : S)
          → AreLoaded entries
          → P (load s)
          → P entries
          → P (load (storage.set_item (text_of codec date_parse entries) s).1)
      load-set_item P entries s h old new =
          let value = text_of codec date_parse entries in
          let out = storage.set_item value s in
          elim (SetResult-cases out.0) [
            | inl e ↦ rw (load_written doc law entries s out.1 h (λ i. (e i, out.1))) new
            | inr (inl e) ↦
                rw (load_kept law value s out.1 quota_exceeded (λ i. (e i, out.1)) (λ n. cc)) old
            | inr (inr e) ↦
                rw (load_kept law value s out.1 refused (λ i. (e i, out.1)) (λ n. cc)) old
          ]

      -- Whatever the storage answers, the old entries are there, or the new ones, or these without
      -- the oldest.
      pub load-try_write :
          (P : List ReadingProgressEntry → Type 0) (entries : List ReadingProgressEntry) (s : S)
          → AreLoaded entries
          → P (load s)
          → P entries
          → P (without_oldest entries)
          → P (load (try_write_anonymous_reading_progress codec date_parse storage entries s))
      load-try_write P entries s h old new less =
          let out = storage.set_item (text_of codec date_parse entries) s in
          let first_write = load-set_item P entries s h old new in
          elim (SetResult-cases out.0) [
            | inl e ↦ rw (written entries s e) first_write
            | inr (inr e) ↦ rw (refused_write entries s e) first_write
            | inr (inl e) ↦ rw (full entries s e) (elim (Bool-cases (leb (length entries) 1)) [
              | inl one ↦ rw one first_write
              | inr more ↦ rw more (
                  load-set_item P (without_oldest entries) out.1
                    (take-AreLoaded (length entries - 1) entries h)
                    (rw (load_kept law _ s out.1 quota_exceeded (λ i. (e i, out.1)) (λ n. cc)) old)
                    less)
            ])
          ]
