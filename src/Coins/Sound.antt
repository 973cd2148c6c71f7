-- ===== src/Coins/Sound.antt =====
-- `adjustBalance` of coins.service.ts and the coin ledger.
use novelhub.Prelude.{
  ℕ, false, Option, none, some, List, ◌≡◌, refl, arith, inl, inr, Bool-cases, ◌&&◌, not,
}
use novelhub.Prelude.Int.{ℤ, pos, ◌+ℤ◌, ◌≤ℤ◌, neg, leb_ℤ, ltb_ℤ, is_zero, neg_parts, +ℤ_parts}
use novelhub.Action.{Ident}
use novelhub.Prisma.{Uuid, on_lists, first, insert_row}
use novelhub.Prisma.Rows.{insert_row-some, first-All}
use novelhub.Schema.{User, CoinTxnType, CoinTransaction, coin_txn_clash, Db, has_id, is_live}
use novelhub.Ledger.{IsSound, IsCovered}
use novelhub.Ledger.Sound.{adjusted-IsSound}
use novelhub.Ledger.Keeps.{KeepsIfOk, Holds}
use novelhub.Coins.{adjust_balance}
use novelhub.Coins.Inserted.{adjusted_by_insert, stored, txn_row, adjust_balance_lem}

module _ (uuid : Uuid) (user_id : Ident) (amount : ℤ) (type : CoinTxnType)
    (related_id : Option Ident) (now : ℕ) where
  stored-Holds :
      (db : Db) (u : User)
      → IsSound db
      → first (has_id user_id) db.users ≡ some u
      → pos 0 ≤ℤ u.coin_balance +ℤ amount
      → (o : Option (List CoinTransaction))
      → insert_row coin_txn_clash
          (txn_row uuid user_id amount type related_id now db (u.coin_balance +ℤ amount))
          db.coin_txns
        ≡ o
      → Holds IsSound
          (stored uuid user_id amount type related_id now db (u.coin_balance +ℤ amount) o)
  stored-Holds db u s e p none q = tt
  stored-Holds db u s e p (some txns) q =
      let t = txn_row uuid user_id amount type related_id now db (u.coin_balance +ℤ amount) in
      rw (insert_row-some coin_txn_clash t db.coin_txns q)
        (adjusted-IsSound user_id t u db s e refl refl p)

  covers :
      (u : User)
      → IsCovered u
      → ltb_ℤ amount (pos 0) && not (leb_ℤ (neg amount) u.coin_balance) ≡ false
      → pos 0 ≤ℤ u.coin_balance +ℤ amount
  covers u h c = ground (arith, neg_parts amount, +ℤ_parts u.coin_balance amount)

  adjusted-Holds :
      (db : Db) (o : Option User)
      → IsSound db
      → first (has_id user_id) db.users ≡ o
      → Holds IsSound (adjusted_by_insert uuid user_id amount type related_id now db o)
  adjusted-Holds db none s e = tt
  adjusted-Holds db (some u) s e = elim (Bool-cases (is_live u)) [
    | inr l ↦ rw l tt
    | inl l ↦ elim (Bool-cases (is_zero amount)) [
      | inl z ↦ rw (l, z) s
      | inr z ↦
          elim (Bool-cases (ltb_ℤ amount (pos 0) && not (leb_ℤ (neg amount) u.coin_balance))) [
            | inl c ↦ rw (l, z, c) tt
            | inr c ↦
                rw (l, z, c)
                  (stored-Holds db u s e
                    (covers u (first-All IsCovered (has_id user_id) db.users u s.covered e) c) _
                    refl)
          ]
    ]
  ]

  pub adjust_balance-KeepsIfOk :
      KeepsIfOk IsSound (adjust_balance (on_lists uuid) user_id amount type related_id now)
  adjust_balance-KeepsIfOk = record {
    at = λ db s.
        rw (adjust_balance_lem uuid user_id amount type related_id now db s.unique)
          (adjusted-Holds db (first (has_id user_id) db.users) s refl);
  }
