-- ===== src/Web/Anonymous/Entries.antt =====
-- The entries of a text, their order and their places.
use Prim.Native.String.{String}
use text.Mathlib.TextEquality.{eq_iff}
use novelhub.Prelude.{
  true, false, Option, some, List, [], ◌∷◌, get_or, ◌≡◌, refl, arith, All, inl, inr, Bool-cases,
  Option-cases,
}
use novelhub.Prelude.Int.{ℤ}
use novelhub.Prisma.{sort}
use novelhub.Prisma.Sorted.{IsSorted, sort-IsSorted}
use novelhub.Web.Json.{
  Json, null, boolean, number, string, array, object, Items, nil, cons, JsonCodec, are_plain,
}
use novelhub.Web.Anonymous.{
  ReadingProgressEntry, is_elsewhere, items_json, item_fields, is_valid, by_newest_first, fields_of,
  entry_of, entries_of,
}

pub elsewhere_sym : (e f : ReadingProgressEntry) → is_elsewhere e f ≡ true → is_elsewhere f e ≡ true
elsewhere_sym e f h = ground (
  arith,
  eq_iff e.book_id f.book_id,
  eq_iff f.book_id e.book_id,
  eq_iff e.chapter_id f.chapter_id,
  eq_iff f.chapter_id e.chapter_id,
)

module _ {T : Type 0} (codec : JsonCodec T) (date_parse : String → Option ℤ) where
  abbrev pub IsValid : ReadingProgressEntry → Type 0
  IsValid e = is_valid codec date_parse e ≡ true

  newest_total :
      (e f : ReadingProgressEntry)
      → by_newest_first codec date_parse e f ≡ false
      → by_newest_first codec date_parse f e ≡ true
  newest_total e f h = ground arith

  newest_trans :
      (e f g : ReadingProgressEntry)
      → by_newest_first codec date_parse e f ≡ true
      → by_newest_first codec date_parse f g ≡ true
      → by_newest_first codec date_parse e g ≡ true
  newest_trans e f g h k = ground arith

  pub sort-newest :
      (entries : List ReadingProgressEntry)
      → IsSorted
          (by_newest_first codec date_parse)
          (sort (by_newest_first codec date_parse) entries)
  sort-newest = sort-IsSorted _ newest_total newest_trans

  entry_of-IsValid :
      (v : Json) (e : ReadingProgressEntry) → entry_of codec date_parse v ≡ some e → IsValid e
  unfolding entry_of
  entry_of-IsValid null e h = absurd (ground arith)
  entry_of-IsValid (boolean b) e h = absurd (ground arith)
  entry_of-IsValid (number n) e h = absurd (ground arith)
  entry_of-IsValid (string s) e h = absurd (ground arith)
  entry_of-IsValid (array items) e h = absurd (ground arith)
  entry_of-IsValid (object candidate) e h = elim (Option-cases (fields_of candidate)) [
    | inl none_found ↦ absurd (ground arith)
    | inr (f, found) ↦ elim (Bool-cases (is_valid codec date_parse f)) [
      | inl v ↦ ground (arith, found, h, v)
      | inr v ↦ absurd (ground (arith, found, h, v))
    ]
  ]

  pub entries_of-IsValid :
      (items : Items) → All IsValid (get_or (entries_of codec date_parse items) [])
  unfolding entries_of
  entries_of-IsValid nil = tt
  entries_of-IsValid (cons v items) = elim (Option-cases (entry_of codec date_parse v)) [
    | inl e ↦ rw e tt
    | inr (e, found) ↦ rw found (elim (Option-cases (entries_of codec date_parse items)) [
      | inl k ↦ rw k tt
      | inr (entries, k) ↦
          rw k (entry_of-IsValid v e found, (let g = entries_of-IsValid items in rw k at g))
    ])
  ]

  -- Entries that are written are read as they were.
  entry_of-object :
      (e : ReadingProgressEntry)
      → IsValid e
      → entry_of codec date_parse (object (item_fields e)) ≡ some e
  unfolding entry_of fields_of
  entry_of-object e h = rw h

  pub entries_of-items_json :
      (entries : List ReadingProgressEntry)
      → All IsValid entries
      → entries_of codec date_parse (items_json entries) ≡ some entries
  unfolding entries_of
  entries_of-items_json [] h = refl
  entries_of-items_json (e ∷ entries) h =
      rw (entry_of-object e h.0, entries_of-items_json entries h.1)

pub are_plain-items_json :
    (entries : List ReadingProgressEntry) → are_plain (items_json entries) ≡ true
are_plain-items_json [] = refl
are_plain-items_json (e ∷ entries) = are_plain-items_json entries
