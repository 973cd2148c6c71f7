-- ===== src/Web/Tests.antt =====
-- Small stores, and what the pages read from them.
use Prim.Native.String.{String, ◌++◌ as append}
use text.Mathlib.Text.{◌==◌ as str_eq}
use novelhub.Prelude.{
  ℕ, zero, suc, List, ap, Bool, false, inr, arith, if◌then◌else◌, Option, none, some, [], ◌∷◌, ◌≡◌,
  refl, true,
}
use novelhub.Prelude.Int.{ℤ, pos}
use novelhub.Prelude.Text.{is_empty}
use novelhub.Web.Json.{
  Json, array, cons, string, number, finite, object, field, end, plain_codec, IsDocumented,
}
use novelhub.Web.Storage.{BrowserStorage, IsStorage, stored, quota_exceeded}
use novelhub.Web.Settings.{
  l, loose, dark, serif, ReaderSettings, RootElement, default_reader_settings,
  sanitize_reader_settings, parse_reader_settings, serialize_reader_settings,
}
use novelhub.Web.Settings.Page.{
  run_bootstrap_script, save_reader_settings, load_reader_settings,
  apply_reader_settings_to_document,
}
use novelhub.Web.Settings.Page.Same.{
  shown, run_bootstrap_script-apply_reader_settings_to_document,
  save_reader_settings-load_reader_settings,
}
use novelhub.Web.Anonymous.{
  ReadingProgressEntry, text_of, progress_of, fields_of, entry_of, entries_of, parse_entries,
  next_entries, load_anonymous_reading_progress, load_anonymous_chapter_progress,
  save_anonymous_reading_progress,
}
use novelhub.Web.Anonymous.Written.{AreLoaded, load}
use novelhub.Web.Anonymous.Kept.{
  AreKept, save_anonymous_reading_progress-AreKept,
  save_anonymous_reading_progress-load_anonymous_chapter_progress,
}
use novelhub.Web.Filters.{
  SearchParams, UrlTexts, single, parse_novels_filters, serialize_novels_filters,
  build_incoming_novels_href, should_redirect_to_canonical_novels_href, novels_page_redirect,
  redirect_to_last_page, build_novels_href, to_books_list_query,
}
use novelhub.Web.Filters.Settles.{AreDocumented}
use novelhub.Web.Filters.Pages.{novels_page_redirect-settles}
use novelhub.Web.Messages.{
  category_only, failed, confirming, build_novels_empty_reason_event, get_payment_success_state,
  get_safe_payment_return_url, select_more_like_this_books,
}

plain_codec-IsDocumented : IsDocumented plain_codec
plain_codec-IsDocumented = record { parse-stringify = λ v h. refl; stringify_not_blank = λ v. refl }

-- A storage with room.
abbrev roomy : {T : Type 0} → BrowserStorage T (Option T)
roomy = record { get_item = λ s. some s; set_item = λ t s. (stored, some t) }

roomy-IsStorage : {T : Type 0} → IsStorage (roomy {T = T})
roomy-IsStorage = record {
  get_item-set_item = λ value s s' e. cc;
  set_item_throws = λ value s s' r e n. absurd (n (cc));
}

abbrev at_night : ReaderSettings
at_night = record {
  font_size = l;
  line_height = loose;
  theme = dark;
  font_family = serif;
  auto_advance = true;
}

save_reader_settings-load_reader_settings_example :
    load_reader_settings plain_codec roomy (save_reader_settings plain_codec roomy at_night none).1
    ≡ some at_night
unfolding save_reader_settings serialize_reader_settings
save_reader_settings-load_reader_settings_example =
    save_reader_settings-load_reader_settings plain_codec roomy at_night none
      (save_reader_settings plain_codec roomy at_night none).1 plain_codec-IsDocumented
      roomy-IsStorage refl

abbrev blank_root : RootElement
blank_root = record { reader_theme = none; reader_font_family = none; style = [] }

-- A theme and no other value.
abbrev only_theme : Option Json
only_theme = some (
    object (
      field "version" (number (finite (pos 1))) (
        field "settings"
          (object (field "theme" (string "dark") (field "fontSize" (string "huge") end))) end)))

run_bootstrap_script-apply_reader_settings_to_document_example :
    run_bootstrap_script plain_codec roomy blank_root (some only_theme)
    ≡ shown
        (apply_reader_settings_to_document plain_codec roomy blank_root (some only_theme))
        blank_root
run_bootstrap_script-apply_reader_settings_to_document_example =
    run_bootstrap_script-apply_reader_settings_to_document plain_codec roomy blank_root
      (some only_theme)

parsed :
    parse_reader_settings plain_codec (some only_theme)
    ≡ record default_reader_settings { theme = dark }
unfolding parse_reader_settings sanitize_reader_settings
parsed = refl

-- A storage that holds one entry.
abbrev is_long : Option Json → Bool
is_long (some (array (cons _ (cons _ _)))) = true
is_long _ = false

abbrev narrow : BrowserStorage (Option Json) (Option (Option Json))
narrow = record {
  get_item = λ s. some s;
  set_item = λ t s. if is_long t then (quota_exceeded, s) else (stored, some t);
}

narrow-IsStorage : IsStorage narrow
narrow-IsStorage = record {
  get_item-set_item = λ value s s' e. ground arith;
  set_item_throws = λ value s s' r e n. ground arith;
}

abbrev day : String → Option ℤ
day s = if str_eq s "Mon" then some (pos 1) else if str_eq s "Tue" then some (pos 2) else none

abbrev on_monday : ReadingProgressEntry
on_monday = record {
  book_id = "emma";
  chapter_id = "one";
  chapter_number = pos 1;
  scroll_percent = pos 40;
  book_title = "Emma";
  book_cover = "covers/emma";
  updated_at = "Mon";
}

abbrev on_tuesday : ReadingProgressEntry
on_tuesday = record on_monday { chapter_id = "two"; chapter_number = pos 2; updated_at = "Tue" }

abbrev monday_kept : Option (Option Json)
monday_kept = some (text_of plain_codec day (on_monday ∷ []))

-- The entry of Monday does not fit beside that of Tuesday.
save_anonymous_reading_progress-load_anonymous_chapter_progress_example :
    load_anonymous_chapter_progress plain_codec day
      (some narrow)
      "emma"
      "two"
      (save_anonymous_reading_progress plain_codec day (some narrow) on_tuesday monday_kept)
    ≡ some (progress_of on_tuesday)
unfolding next_entries load_anonymous_reading_progress parse_entries entries_of entry_of fields_of
save_anonymous_reading_progress-load_anonymous_chapter_progress_example =
    save_anonymous_reading_progress-load_anonymous_chapter_progress plain_codec day narrow
      plain_codec-IsDocumented narrow-IsStorage on_tuesday refl monday_kept (refl, tt)
      (inr (refl, omega arith, refl))

save_anonymous_reading_progress-AreKept_example :
    AreKept (
      load plain_codec day narrow
        (save_anonymous_reading_progress plain_codec day (some narrow) on_tuesday monday_kept))
    × AreLoaded plain_codec day (
        load plain_codec day narrow
          (save_anonymous_reading_progress plain_codec day (some narrow) on_tuesday monday_kept))
unfolding load_anonymous_reading_progress parse_entries entries_of entry_of fields_of
save_anonymous_reading_progress-AreKept_example =
    save_anonymous_reading_progress-AreKept plain_codec day narrow plain_codec-IsDocumented
      narrow-IsStorage on_tuesday refl monday_kept (omega arith, (tt, tt))

-- Numbers written with strokes, one more than the number, and queries without escapes.
abbrev strokes : ℕ → String
strokes zero = String.◌∷◌ "|" String.[]
strokes (suc n) = String.◌∷◌ "|" (strokes n)

abbrev count_text : String → ℕ
count_text String.[] = 0
count_text (String.◌∷◌ c s) = suc (count_text s)

abbrev number_of : String → Option ℤ
number_of String.[] = none
number_of (String.◌∷◌ c s) = some (pos (count_text s))

abbrev joined : List (String × String) → String
joined [] = ""
joined ((k, v) ∷ []) = append k (append "=" v)
joined ((k, v) ∷ (p ∷ pairs)) = append k (append "=" (append v (append "&" (joined (p ∷ pairs)))))

abbrev stroke_texts : UrlTexts
stroke_texts = record { number = number_of; number_text = strokes; query_text = joined }

count_text-strokes : (n : ℕ) → count_text (strokes n) ≡ suc n
count_text-strokes zero = refl
count_text-strokes (suc n) = ap (λ k. suc k) (count_text-strokes n)

number_of-strokes : (n : ℕ) → number_of (strokes n) ≡ some (pos n)
number_of-strokes zero = refl
number_of-strokes (suc n) = ap (λ k. some (pos k)) (count_text-strokes n)

strokes_there : (n : ℕ) → is_empty (strokes n) ≡ false
strokes_there zero = refl
strokes_there (suc n) = refl

stroke_texts-AreDocumented : AreDocumented stroke_texts
stroke_texts-AreDocumented = record {
  number-number_text = number_of-strokes;
  number_text_there = strokes_there;
}

-- The category has blanks, and of five pages there are two.
abbrev untidy : SearchParams
untidy = ("page", single "||||||") ∷ ("category", single " love ") ∷ []

abbrev decode_love : String → SearchParams
decode_love s =
    if str_eq s "/novels?category=love&page=||||||"
    then ("category", single "love") ∷ ("page", single "||||||") ∷ []
    else ("category", single "love") ∷ ("page", single "|||") ∷ []

novels_page_redirect-settles_example :
    novels_page_redirect stroke_texts
      (λ category status. 30)
      (decode_love "/novels?category=love&page=|||")
    ≡ none
unfolding parse_novels_filters serialize_novels_filters should_redirect_to_canonical_novels_href
    build_incoming_novels_href novels_page_redirect redirect_to_last_page build_novels_href
    to_books_list_query
novels_page_redirect-settles_example =
    novels_page_redirect-settles stroke_texts stroke_texts-AreDocumented (λ category status. 30)
      untidy decode_love "/novels?category=love&page=||||||" "/novels?category=love&page=|||" refl
      refl refl refl

only_category : (build_novels_empty_reason_event true false 7).reason ≡ category_only
only_category = refl

still_pending : get_payment_success_state (some "pending") 1000 60999 ≡ confirming
still_pending = refl

given_up : get_payment_success_state none 1000 61000 ≡ failed
given_up = refl

elsewhere :
    get_safe_payment_return_url
      (λ value origin. some "https://example.test")
      (some "//example.test")
      "https://novelhub.test"
    ≡ none
elsewhere = refl

too_few : select_more_like_this_books (λ s. s) "a" ("a" ∷ "b" ∷ "c" ∷ []) ≡ []
too_few = refl

four_others :
    select_more_like_this_books (λ s. s) "a" ("b" ∷ "a" ∷ "c" ∷ "d" ∷ "e" ∷ "f" ∷ [])
    ≡ "b" ∷ "c" ∷ "d" ∷ "e" ∷ []
four_others = refl
