-- ===== src/Chapters/Tests.antt =====
-- Pages of a small book.

use novelhub.Prelude.{none, some, ◌≡◌, refl, arith, true, false, All, ◌≤◌}
use novelhub.Prelude.Int.{pos}
use novelhub.Action.{ok, err, domain, payment_required}
use novelhub.Catalog.{find_chapter, find_unlock, has_active_subscription}
use novelhub.Unlocks.{response, unlock_chapter}
use novelhub.Unlocks.Charge.{charged, unlock_row, unlock_chapter-covered}
use novelhub.Schema.{Chapter, Db}
use novelhub.Sample.{
  client, client-IsDocumented, fresh, library, library-IsSound, reader, novel, opening, second,
}
use novelhub.Chapters.{
  CacheClient, StorageClient, LockedChapter, unlocked, locked, read_chapter, build_unlocked,
  is_unlocked_for, has_chapter_unlock, prev_chapter, next_chapter, id_of, stands_after, take_chars,
}
use novelhub.Chapters.Access.{unlock_chapter-read, read_chapter-offers}
use novelhub.Chapters.Next.{next-prev, next_chapter-nearest}

-- `NoopCacheClient`
abbrev no_cache : CacheClient (Unit {0})
no_cache = record { get = λ id k. none; set = λ id text k. k }

abbrev shelf : StorageClient
shelf = record { get_signed_url = λ key. none; get_text = λ key. some "Emma Woodhouse, handsome" }

abbrev after : Db
after = charged fresh 1 2 (pos 5) 9 reader library

paid :
    unlock_chapter client 1 2 9 library ≡ (ok (response (unlock_row fresh 1 2 9 library) 1), after)
unfolding has_active_subscription find_unlock find_chapter
paid =
    unlock_chapter-covered client 1 9 library reader second novel client-IsDocumented
      library-IsSound.unique refl refl refl (omega arith) refl refl refl refl

unlock_chapter-read_example :
    read_chapter client no_cache shelf 2 (some 1) 20 (after, tt)
    ≡ (ok (unlocked (build_unlocked client shelf second after)), (after, tt))
unfolding find_chapter
unlock_chapter-read_example =
    unlock_chapter-read no_cache shelf client 1 2 9 20 library after tt
      (response (unlock_row fresh 1 2 9 library) 1) second novel client-IsDocumented paid refl

read_chapter-offers_example :
    (page : LockedChapter) × (k : Unit {0}) × (read_chapter client no_cache shelf 2
        (some 1)
        9
        (library, tt)
      ≡ (ok (locked page), (library, k)))
    × (page.unlock_options.can_unlock_with_subscription ≡ false)
    × (page.unlock_options.can_unlock_with_coins ≡ true
        → unlock_chapter client 1 2 9 library
          ≡ (ok (response (unlock_row fresh 1 2 9 library) 1), after))
    × (page.unlock_options.can_unlock_with_coins ≡ false
        → unlock_chapter client 1 2 9 library ≡ (
          err (
              domain payment_required
                (some (record { chapter_id = 2; coin_cost = pos 5; current_balance = pos 20 }))),
          library,
        ))
unfolding find_chapter is_unlocked_for has_chapter_unlock has_active_subscription find_unlock
read_chapter-offers_example =
    read_chapter-offers no_cache shelf client 1 9 library tt reader second novel client-IsDocumented
      library-IsSound.unique refl refl (omega arith) refl refl

second_is_next : next_chapter client opening library ≡ some second
unfolding next_chapter
second_is_next = refl

next-prev_example : id_of (prev_chapter client second library) ≡ some 1
next-prev_example =
    next-prev client library opening second client-IsDocumented (omega arith) refl second_is_next

next_chapter-nearest_example :
    (stands_after opening second ≡ true)
    × All (λ (r : Chapter). stands_after opening r ≡ true → second.order ≤ r.order) library.chapters
next_chapter-nearest_example =
    next_chapter-nearest client library opening second client-IsDocumented second_is_next

-- A preview stops after its length.
short_preview : take_chars 4 "Emma Woodhouse" ≡ "Emma"
short_preview = refl
