-- ===== src/Session/Sound.antt =====
-- `banUser` and `unbanUser` of admin.service.ts and the coin ledger.
use novelhub.Prelude.{ℕ, Option, some, none, refl, arith, ◌≡◌, ◌⊎◌, inl, inr}
use novelhub.Action.{Ident}
use novelhub.Prisma.{Uuid, on_lists, update_rows}
use novelhub.Schema.{Db, has_id}
use novelhub.Ledger.{IsSound}
use novelhub.Ledger.Sound.{relabel-IsSound}
use novelhub.Ledger.Keeps.{Keeps}
use novelhub.Session.{set_banned, update_banned, ban_user, unban_user}

module _ (uuid : Uuid) where
  update_banned_returns :
      (id : Ident) (at : Option ℕ) (db : Db)
      → ((update_banned (on_lists uuid) id at db).1 ≡ db)
        ⊎ ((update_banned (on_lists uuid) id at db).1
            ≡ record db { users = update_rows (has_id id) (set_banned at) db.users })
  unfolding update_banned
  update_banned_returns id at db = ground arith

  update_banned-Keeps :
      (id : Ident) (at : Option ℕ) → Keeps IsSound (update_banned (on_lists uuid) id at)
  update_banned-Keeps id at = record {
    at = λ db s. elim (update_banned_returns id at db) [
      | inl same ↦ rw same s
      | inr after ↦ rw after (relabel-IsSound (has_id id) (set_banned at) db (λ u. (refl, refl)) s)
    ];
  }

  pub ban_user-Keeps : (id : Ident) (now : ℕ) → Keeps IsSound (ban_user (on_lists uuid) id now)
  unfolding ban_user
  ban_user-Keeps id now = update_banned-Keeps id (some now)

  pub unban_user-Keeps : (id : Ident) → Keeps IsSound (unban_user (on_lists uuid) id)
  unfolding unban_user
  unban_user-Keeps id = update_banned-Keeps id none
