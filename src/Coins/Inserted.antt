-- ===== src/Coins/Inserted.antt =====
-- `adjustBalance` of coins.service.ts as one table of cases over the user that is stored, in which the
-- insertion of the audit row stands as it is.
use novelhub.Prelude.{
  ℕ, true, false, Option, none, some, List, ◌≡◌, refl, arith, inl, inr, ◌&&◌, not, Option-cases,
  Bool-cases, if◌then◌else◌,
}
use novelhub.Prelude.Int.{ℤ, pos, ◌+ℤ◌, neg, leb_ℤ, ltb_ℤ, is_zero}
use novelhub.Action.{
  Ident, Result, ok, err, domain, not_found, insufficient_balance, unique_violation,
}
use novelhub.Prisma.{Uuid, on_lists, first, update_rows, insert_row}
use novelhub.Schema.{User, CoinTransaction, CoinTxnType, coin_txn_clash, Db, has_id, is_live}
use novelhub.Ledger.{HaveUniqueIds}
use novelhub.Ledger.Updates.{update-other, update_where-chosen, update_where-refused, first-update}
use novelhub.Ledger.Sound.{increment}
use novelhub.Coins.{AdjustResult, adjust_balance, spend, grant, record_txn}

module _ (uuid : Uuid) (user_id : Ident) (amount : ℤ) (type : CoinTxnType)
    (related_id : Option Ident) (now : ℕ) where
  -- The audit row of an adjustment that leaves a balance of `after`.
  abbrev pub txn_row : Db → ℤ → CoinTransaction
  txn_row db after = record {
    id = uuid CoinTransaction (λ t. t.id) db.coin_txns;
    user_id = user_id;
    amount = amount;
    type = type;
    related_id = related_id;
    balance_after = after;
    created_at = now;
  }

  abbrev pub moved : Db → Db
  moved db = record db { users = update_rows (has_id user_id) (increment amount) db.users }

  -- What is left once the audit row has been inserted, or has been refused.
  abbrev pub stored : Db → ℤ → Option (List CoinTransaction) → Result AdjustResult × Db
  stored db after none = (err unique_violation, moved db)
  stored db after (some txns) = (
    ok (record { balance = after; transaction_id = (txn_row db after).id }),
    record (moved db) { coin_txns = txns },
  )

  abbrev pub written : Db → ℤ → Result AdjustResult × Db
  written db after = stored db after (insert_row coin_txn_clash (txn_row db after) db.coin_txns)

  abbrev pub adjusted_by_insert : Db → Option User → Result AdjustResult × Db
  adjusted_by_insert db none = (err (domain not_found none), db)
  adjusted_by_insert db (some u) =
      if not (is_live u)
      then (err (domain not_found none), db)
      else if is_zero amount
      then (ok (record { balance = u.coin_balance; transaction_id = 0 }), db)
      else if ltb_ℤ amount (pos 0) && not (leb_ℤ (neg amount) u.coin_balance)
      then (err (insufficient_balance (neg amount) u.coin_balance), db)
      else written db (u.coin_balance +ℤ amount)

  adjust_absent :
      (db : Db)
      → first (has_id user_id) db.users ≡ none
      → adjust_balance (on_lists uuid) user_id amount type related_id now db
        ≡ adjusted_by_insert db none
  unfolding adjust_balance spend grant record_txn
  adjust_absent db e = ground (
    arith,
    update-other user_id (λ u. is_live u && leb_ℤ (neg amount) u.coin_balance) (increment amount)
        db.users e,
    update-other user_id is_live (increment amount) db.users e,
  )

  adjust_refused :
      (db : Db) (u : User)
      → HaveUniqueIds db.users
      → first (has_id user_id) db.users ≡ some u
      → is_live u ≡ false
      → adjust_balance (on_lists uuid) user_id amount type related_id now db
        ≡ adjusted_by_insert db (some u)
  unfolding adjust_balance spend grant record_txn
  adjust_refused db u h e l = ground (
    arith,
    update_where-refused user_id (λ v. is_live v && leb_ℤ (neg amount) v.coin_balance)
        (increment amount) db.users u h e,
    update_where-refused user_id is_live (increment amount) db.users u h e,
  )

  module _ (db : Db) (u : User) (h : HaveUniqueIds db.users)
      (e : first (has_id user_id) db.users ≡ some u) (l : is_live u ≡ true) where
    adjust_zero :
        is_zero amount ≡ true
        → adjust_balance (on_lists uuid) user_id amount type related_id now db
          ≡ adjusted_by_insert db (some u)
    unfolding adjust_balance spend grant record_txn
    adjust_zero z = ground arith

    adjust_short :
        is_zero amount ≡ false
        → ltb_ℤ amount (pos 0) ≡ true
        → leb_ℤ (neg amount) u.coin_balance ≡ false
        → adjust_balance (on_lists uuid) user_id amount type related_id now db
          ≡ adjusted_by_insert db (some u)
    unfolding adjust_balance spend grant record_txn
    adjust_short z s c = ground (
      arith,
      update_where-refused user_id (λ v. is_live v && leb_ℤ (neg amount) v.coin_balance)
          (increment amount) db.users u h e,
    )

    record_txn-moved :
        record_txn (on_lists uuid) user_id amount type related_id now (moved db)
        ≡ written db (u.coin_balance +ℤ amount)
    unfolding record_txn
    record_txn-moved =
        rw (first-update user_id (increment amount) db.users u (λ v. refl) e) (ground arith)

    spend_covered :
        leb_ℤ (neg amount) u.coin_balance ≡ true
        → spend (on_lists uuid) user_id (neg amount) amount db ≡ (ok tt, moved db)
    unfolding spend
    spend_covered c = ground (
      arith,
      update_where-chosen user_id (λ v. is_live v && leb_ℤ (neg amount) v.coin_balance)
          (increment amount) db.users u h e,
    )

    grant_live : grant (on_lists uuid) user_id amount db ≡ (ok tt, moved db)
    unfolding grant
    grant_live =
        ground (arith, update_where-chosen user_id is_live (increment amount) db.users u h e)

    adjust_spend :
        is_zero amount ≡ false
        → ltb_ℤ amount (pos 0) ≡ true
        → leb_ℤ (neg amount) u.coin_balance ≡ true
        → adjust_balance (on_lists uuid) user_id amount type related_id now db
          ≡ adjusted_by_insert db (some u)
    unfolding adjust_balance
    adjust_spend z s c = simp (l, z, s, c) (ground (arith, spend_covered c, record_txn-moved))

    adjust_grant :
        is_zero amount ≡ false
        → ltb_ℤ amount (pos 0) ≡ false
        → adjust_balance (on_lists uuid) user_id amount type related_id now db
          ≡ adjusted_by_insert db (some u)
    unfolding adjust_balance
    adjust_grant z s = simp (l, z, s) (ground (arith, grant_live, record_txn-moved))

    adjust_live :
        adjust_balance (on_lists uuid) user_id amount type related_id now db
        ≡ adjusted_by_insert db (some u)
    adjust_live = elim (Bool-cases (is_zero amount)) [
      | inl z ↦ adjust_zero z
      | inr z ↦ elim (Bool-cases (ltb_ℤ amount (pos 0))) [
        | inl s ↦ elim (Bool-cases (leb_ℤ (neg amount) u.coin_balance)) [
          | inl c ↦ adjust_spend z s c
          | inr c ↦ adjust_short z s c
        ]
        | inr s ↦ adjust_grant z s
      ]
    ]

  pub adjust_balance_lem :
      (db : Db)
      → HaveUniqueIds db.users
      → adjust_balance (on_lists uuid) user_id amount type related_id now db
        ≡ adjusted_by_insert db (first (has_id user_id) db.users)
  adjust_balance_lem db h = elim (Option-cases (first (has_id user_id) db.users)) [
    | inl e ↦ rw e (adjust_absent db e)
    | inr (u, e) ↦ rw e (elim (Bool-cases (is_live u)) [
      | inl l ↦ adjust_live db u h e l
      | inr l ↦ adjust_refused db u h e l
    ])
  ]
