-- ===== src/Progress/Sound.antt =====
-- `save` of reading-progress.service.ts and the coin ledger.
use novelhub.Prelude.{ℕ, refl}
use novelhub.Action.{Ident}
use novelhub.Prisma.{Uuid, on_lists}
use novelhub.Schema.{Chapter}
use novelhub.Ledger.{IsSound}
use novelhub.Ledger.Keeps.{Keeps, keeps_rules, untouched-Keeps}
use novelhub.Progress.{Number, upsert_progress, save}

module _ (uuid : Uuid) where
  upsert_progress-Keeps :
      (user_id chapter_id : Ident) (c : Chapter) (position now : ℕ)
      → Keeps IsSound (upsert_progress (on_lists uuid) user_id chapter_id c position now)
  unfolding upsert_progress
  upsert_progress-Keeps user_id chapter_id c position now = untouched-Keeps _ (λ db. (refl, refl))

  pub save-Keeps :
      (user_id chapter_id : Ident) (scroll : Number) (now : ℕ)
      → Keeps IsSound (save (on_lists uuid) user_id chapter_id scroll now)
  unfolding save
  save-Keeps user_id chapter_id scroll now = search (keeps_rules, upsert_progress-Keeps) depth 20
