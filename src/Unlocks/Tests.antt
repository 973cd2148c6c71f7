-- ===== src/Unlocks/Tests.antt =====
-- Unlocks in a small database.
use novelhub.Prelude.{some, ◌∷◌, [], ◌≡◌, refl, arith}
use novelhub.Prelude.Int.{pos}
use novelhub.Action.{Ident, ok, err, domain, payment_required}
use novelhub.Schema.{Db}
use novelhub.Catalog.{find_chapter, find_unlock, has_active_subscription}
use novelhub.Sample.{
  client, client-IsDocumented, fresh, library, library-IsSound, reader, novel, second,
}
use novelhub.Unlocks.{UnlockResponse, response, unlock_chapter}
use novelhub.Unlocks.Charge.{charged, unlock_row, unlock_chapter-covered, unlock_chapter-short}
use novelhub.Unlocks.Again.{unlock_chapter-again}
use novelhub.Unlocks.Failure.{unlock_chapter-err}

abbrev poor_reader_library : Db
poor_reader_library = record library { users = record reader { coin_balance = pos 4 } ∷ [] }

found_second : find_chapter client 2 library ≡ (ok (second, novel), library)
unfolding find_chapter
found_second = refl

abbrev answer : UnlockResponse
answer = response (unlock_row fresh 1 2 9 library) 1

abbrev after : Db
after = charged fresh 1 2 (pos 5) 9 reader library

unlock_chapter-covered_example : unlock_chapter client 1 2 9 library ≡ (ok answer, after)
unfolding has_active_subscription find_unlock
unlock_chapter-covered_example =
    unlock_chapter-covered client 1 9 library reader second novel client-IsDocumented
      library-IsSound.unique refl refl refl (omega arith) refl found_second refl refl

unlock_chapter-short_example : unlock_chapter client 1 2 9 poor_reader_library ≡ (
  err (
      domain payment_required
        (some (record { chapter_id = 2; coin_cost = pos 5; current_balance = pos 4 }))),
  poor_reader_library,
)
unfolding has_active_subscription find_unlock find_chapter
unlock_chapter-short_example =
    unlock_chapter-short client 1 2 9 poor_reader_library (record reader { coin_balance = pos 4 })
      second novel client-IsDocumented (tt, tt) refl refl refl (omega arith) refl refl refl refl

paid : unlock_chapter client 1 2 9 library ≡ (ok answer, after)
unfolding has_active_subscription find_unlock
paid =
    unlock_chapter-covered client 1 9 library reader second novel client-IsDocumented
      library-IsSound.unique refl refl refl (omega arith) refl found_second refl refl

refused : unlock_chapter client 1 2 9 poor_reader_library ≡ (
  err (
      domain payment_required
        (some (record { chapter_id = 2; coin_cost = pos 5; current_balance = pos 4 }))),
  poor_reader_library,
)
unfolding has_active_subscription find_unlock find_chapter
refused =
    unlock_chapter-short client 1 2 9 poor_reader_library (record reader { coin_balance = pos 4 })
      second novel client-IsDocumented (tt, tt) refl refl refl (omega arith) refl refl refl refl

unlock_chapter-again_example :
    (book_id : Ident) × (unlock_chapter client 1 2 12 after
      ≡ (ok (record answer { book_id = book_id }), after))
unlock_chapter-again_example =
    unlock_chapter-again client 1 2 9 12 library after answer client-IsDocumented paid

unlock_chapter-err_example : poor_reader_library ≡ poor_reader_library
unlock_chapter-err_example =
    unlock_chapter-err client 1 2 9 poor_reader_library poor_reader_library _ client-IsDocumented
      refused
