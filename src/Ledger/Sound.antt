-- ===== src/Ledger/Sound.antt =====
-- An adjustment of one user, with its audit row, and the coin ledger.
use novelhub.Prelude.{Bool, some, List, [], ◌∷◌, ◌++◌, ◌≡◌, refl, arith, All, All-append, All-map}
use novelhub.Prelude.Int.{ℤ, pos, ◌+ℤ◌, ◌≤ℤ◌, int_laws}
use novelhub.Action.{Ident}
use novelhub.Prisma.{first, update_rows}
use novelhub.Prisma.Rows.{first-All, first-holds, update_rows-All}
use novelhub.Schema.{User, CoinTransaction, Db, has_id}
use novelhub.Ledger.{
  sum_of, sum_of-append, IsBalanced, IsCovered, IsAudited-append, IsOwned, IsSound,
}
use novelhub.Ledger.Updates.{update_unique, update-present}

-- `coinBalance: { increment: amount }`
abbrev pub increment : ℤ → User → User
increment amount u = record u { coin_balance = u.coin_balance +ℤ amount }

module _ (id : Ident) (t : CoinTransaction) (e : t.user_id ≡ id) where
  update-IsBalanced :
      (txns : List CoinTransaction) (users : List User)
      → All (IsBalanced txns) users
      → All (IsBalanced (txns ++ t ∷ [])) (update_rows (has_id id) (increment t.amount) users)
  update-IsBalanced txns [] h = tt
  update-IsBalanced txns (u ∷ users) h =
      (grind (int_laws, sum_of-append u.id txns t), update-IsBalanced txns users h.1)

  update-IsCovered :
      (txns : List CoinTransaction) (users : List User)
      → pos 0 ≤ℤ sum_of id txns +ℤ t.amount
      → All (IsBalanced txns) users
      → All IsCovered users
      → All IsCovered (update_rows (has_id id) (increment t.amount) users)
  update-IsCovered txns [] p b h = tt
  update-IsCovered txns (u ∷ users) p b h =
      (grind (int_laws), update-IsCovered txns users p b.1 h.1)

-- The user has the balance `u.coin_balance`, and the row states the new one.
pub adjusted-IsSound :
    (id : Ident) (t : CoinTransaction) (u : User) (db : Db)
    → IsSound db
    → first (has_id id) db.users ≡ some u
    → t.user_id ≡ id
    → t.balance_after ≡ u.coin_balance +ℤ t.amount
    → pos 0 ≤ℤ u.coin_balance +ℤ t.amount
    → IsSound (record db {
      users = update_rows (has_id id) (increment t.amount) db.users;
      coin_txns = db.coin_txns ++ t ∷ [];
    })
adjusted-IsSound id t u db s found e after p =
    let b : u.coin_balance ≡ sum_of u.id db.coin_txns =
      first-All (IsBalanced db.coin_txns) (has_id id) db.users u s.balanced found in
    let same : u.id ≡ id = ground (arith, first-holds (has_id id) db.users u found) in
    record {
      unique = update_unique (has_id id) (increment t.amount) db.users (λ v. refl) s.unique;
      balanced = update-IsBalanced id t e db.coin_txns db.users s.balanced;
      covered =
          update-IsCovered id t e db.coin_txns db.users (rw (← same, ← b) p) s.balanced s.covered;
      audited =
          IsAudited-append [] db.coin_txns t s.audited
            (grind (int_laws, sum_of-append t.user_id db.coin_txns t));
      owned =
          All-append _ db.coin_txns
            (All-map (IsOwned db.users) _ db.coin_txns
              (λ s p.
                update-present s.user_id (has_id id) (increment t.amount) db.users (λ v. refl) p)
              s.owned)
            (update-present t.user_id (has_id id) (increment t.amount) db.users (λ v. refl)
              (rw (e, found) (cc)));
    }

-- What a soundness proof reads of the database.
pub same-IsSound :
    (db db' : Db) → db'.users ≡ db.users → db'.coin_txns ≡ db.coin_txns → IsSound db → IsSound db'
same-IsSound db db' e f s = record {
  unique = rw e s.unique;
  balanced = rw (e, f) s.balanced;
  covered = rw e s.covered;
  audited = rw f s.audited;
  owned = rw (e, f) s.owned;
}

-- An update of users that keeps their ids and balances.
pub relabel-IsSound :
    (w : User → Bool) (f : User → User) (db : Db)
    → ((u : User) → ((f u).id ≡ u.id) × ((f u).coin_balance ≡ u.coin_balance))
    → IsSound db
    → IsSound (record db { users = update_rows w f db.users })
relabel-IsSound w f db k s = record {
  unique = update_unique w f db.users (λ u. (k u).0) s.unique;
  balanced =
      update_rows-All (IsBalanced db.coin_txns) w f db.users (λ u _ b. rw ((k u).0, (k u).1) b)
        s.balanced;
  covered = update_rows-All IsCovered w f db.users (λ u _ c. rw ((k u).1) c) s.covered;
  audited = s.audited;
  owned =
      All-map (IsOwned db.users) _ db.coin_txns
        (λ t p. update-present t.user_id w f db.users (λ u. (k u).0) p) s.owned;
}
