-- ===== src/Ledger.antt =====
-- The coin ledger: every balance is the sum of the user's audit rows, and every audit row states
-- the balance that it left. `coin_balance` and `coin_transactions` of the schema, as one invariant.
pub mod Updates
pub mod Sound
pub mod Join
pub mod Keeps
use mathlib.Core.List.{append-nil, append_assoc}
use novelhub.Prelude.{List, [], ◌∷◌, ◌++◌, ◌≡◌, ◌≢◌, none, All, ◌==◌, if◌then◌else◌}
use novelhub.Prelude.Int.{ℤ, pos, ◌+ℤ◌, ◌≤ℤ◌, int_laws}
use novelhub.Action.{Ident}
use novelhub.Prisma.{first}
use novelhub.Schema.{User, CoinTransaction, Db, has_id}

abbrev pub sum_of : Ident → List CoinTransaction → ℤ
sum_of id [] = pos 0
sum_of id (t ∷ txns) = (if t.user_id == id then t.amount else pos 0) +ℤ sum_of id txns

abbrev pub IsBalanced : List CoinTransaction → User → Type 0
IsBalanced txns u = u.coin_balance ≡ sum_of u.id txns

abbrev pub IsCovered : User → Type 0
IsCovered u = pos 0 ≤ℤ u.coin_balance

abbrev pub HasOther : User → User → Type 0
HasOther u v = v.id ≢ u.id

abbrev pub HaveUniqueIds : List User → Type 0
HaveUniqueIds [] = Unit
HaveUniqueIds (u ∷ users) = All (HasOther u) users × HaveUniqueIds users

-- Each row states the balance after it; `seen` are the rows before.
abbrev pub IsAudited : List CoinTransaction → List CoinTransaction → Type 0
IsAudited seen [] = Unit
IsAudited seen (t ∷ txns) =
    (t.balance_after ≡ sum_of t.user_id (seen ++ t ∷ [])) × IsAudited (seen ++ t ∷ []) txns

-- An audit row names a user that is stored (the foreign key of `coin_transactions`).
abbrev pub IsOwned : List User → CoinTransaction → Type 0
IsOwned users t = first (has_id t.user_id) users ≢ none

pub record IsSound (db : Db) : Type 0 where
  pub unique : HaveUniqueIds db.users
  pub balanced : All (IsBalanced db.coin_txns) db.users
  pub covered : All IsCovered db.users
  pub audited : IsAudited [] db.coin_txns
  pub owned : All (IsOwned db.users) db.coin_txns

pub sum_of-append :
    (id : Ident) (txns : List CoinTransaction) (t : CoinTransaction)
    → sum_of id (txns ++ t ∷ []) ≡ sum_of id txns +ℤ (if t.user_id == id then t.amount else pos 0)
sum_of-append id [] t = omega int_laws
sum_of-append id (s ∷ txns) t = rw (sum_of-append id txns t) (omega int_laws)

-- One more row at the end is audited if it states the sum with itself.
pub IsAudited-append :
    (seen txns : List CoinTransaction) (t : CoinTransaction)
    → IsAudited seen txns
    → t.balance_after ≡ sum_of t.user_id ((seen ++ txns) ++ t ∷ [])
    → IsAudited seen (txns ++ t ∷ [])
IsAudited-append seen [] t h e = (rw append-nil at e, tt)
IsAudited-append seen (s ∷ txns) t h e =
    (h.0, IsAudited-append (seen ++ s ∷ []) txns t h.1 (simp append_assoc (simp append_assoc at e)))
