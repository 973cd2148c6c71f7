-- ===== src/Progress/Tests.antt =====
-- A reader's progress in a small database.
use novelhub.Prelude.{List, length, ◌≤◌, none, some, ◌∷◌, [], ◌≡◌, refl, false, All}
use novelhub.Prelude.Int.{pos}
use novelhub.Action.{ok, err, domain, not_found}
use novelhub.Schema.{ReadingProgress, Db}
use novelhub.Sample.{client, client-IsDocumented, library, novel, opening, second}
use novelhub.Catalog.{find_chapter, find_unlock, has_active_subscription}
use novelhub.Chapters.{is_unlocked_for, has_chapter_unlock}
use novelhub.Progress.{
  Number, ProgressResponse, save, find_one, clamp_scroll_percent, list_recent, items_of,
  ProgressListItem,
}
use novelhub.Progress.Saved.{save-find_one, save-locked}
use novelhub.Progress.Recent.{IsLatestOf, list_recent-latest}
use novelhub.Progress.Books.{AreOfDistinctBooks}

-- 42.5 percent
abbrev scroll : Number
scroll = record { numerator = pos 85; below = 1 }

halves_go_up : clamp_scroll_percent scroll ≡ 43
halves_go_up = refl

opening_is_found : find_chapter client 1 library ≡ (ok (opening, novel), library)
unfolding find_chapter
opening_is_found = refl

second_is_found : find_chapter client 2 library ≡ (ok (second, novel), library)
unfolding find_chapter
second_is_found = refl

save-find_one_example :
    (p q : ProgressResponse) × (db' : Db) × (save client 1 1 scroll 50 library ≡ (ok p, db'))
    × (find_one client 1 none (some 1) db' ≡ some q)
    × (q.scroll_percent ≡ p.scroll_percent)
    × (q.last_read_at ≡ 50)
    × (p.scroll_percent ≡ clamp_scroll_percent scroll)
save-find_one_example =
    save-find_one client 1 1 scroll 50 library opening novel client-IsDocumented (λ e. cc)
      opening_is_found (unfold is_unlocked_for in refl)

second_is_locked : is_unlocked_for client second (some 1) 50 library ≡ false
unfolding is_unlocked_for has_chapter_unlock find_unlock has_active_subscription
second_is_locked = refl

save-locked_example : save client 1 2 scroll 50 library ≡ (err (domain not_found none), library)
save-locked_example =
    save-locked client 1 2 scroll 50 library second novel client-IsDocumented second_is_found
      second_is_locked

abbrev first_row : ReadingProgress
first_row = record {
  id = 1;
  user_id = some 1;
  book_id = 1;
  chapter_id = 1;
  scroll_position = 100;
  last_read_at = 40;
  updated_at = 40;
}

abbrev read_on : Db
read_on = record library {
  progress =
      first_row
      ∷ record first_row { id = 2; chapter_id = 2; scroll_position = 43; last_read_at = 50 }
      ∷ [];
}

list_recent-latest_example :
    (rows : List ReadingProgress) × (items : List ProgressListItem) × (list_recent client 1
        (pos 10)
        read_on
      ≡ (ok items, read_on))
    × (items_of client read_on rows ≡ some items)
    × (length items ≤ 10)
    × AreOfDistinctBooks rows
    × All (IsLatestOf 1 read_on) rows
list_recent-latest_example =
    list_recent-latest client 1 (pos 10) read_on client-IsDocumented
      (((opening, refl), (novel, refl)), (((second, refl), (novel, refl)), tt))
