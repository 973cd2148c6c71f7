-- ===== src/Ledger/Join.antt =====
-- A new user, with an audit row for the balance that the account begins with.
use novelhub.Prelude.{
  none, List, [], ◌∷◌, ◌++◌, ◌≡◌, ◌≢◌, refl, sym, ap, ◌∙◌, arith, inl, inr, Bool-cases, ◌==◌,
  ==_iff, All, All-append, All-map,
}
use novelhub.Prelude.Int.{pos, ◌≤ℤ◌, int_laws}
use novelhub.Action.{Ident}
use novelhub.Prisma.{first}
use novelhub.Schema.{User, CoinTransaction, user_clash, has_id, Db}
use novelhub.Ledger.{
  IsSound, HasOther, HaveUniqueIds, IsBalanced, IsCovered, IsAudited-append, IsOwned, sum_of,
  sum_of-append,
}

-- A new row whose id is in use is refused.
pub unique_of_insert :
    (u : User) (users : List User) → first (user_clash u) users ≡ none → All (HasOther u) users
unique_of_insert u [] e = tt
unique_of_insert u (v ∷ users) e = (grind arith, unique_of_insert u users (ground arith))

HaveUniqueIds-append :
    (users : List User) (u : User)
    → HaveUniqueIds users
    → All (HasOther u) users
    → HaveUniqueIds (users ++ u ∷ [])
HaveUniqueIds-append [] u h o = (tt, tt)
HaveUniqueIds-append (v ∷ users) u h o =
    (All-append (HasOther v) users h.0 (λ e. o.0 (sym e)), HaveUniqueIds-append users u h.1 o.1)

first-none :
    (u : User) (users : List User) → All (HasOther u) users → first (has_id u.id) users ≡ none
first-none u [] h = refl
first-none u (v ∷ users) h = ground (arith, first-none u users h.1)

first-append :
    (id : Ident) (users : List User) (u : User)
    → first (has_id id) users ≢ none
    → first (has_id id) (users ++ u ∷ []) ≢ none
first-append id [] u h = absurd (h refl)
first-append id (v ∷ users) u h = ground (arith, first-append id users u)

first-last : (u : User) (users : List User) → first (has_id u.id) (users ++ u ∷ []) ≢ none
first-last u [] = ground arith
first-last u (v ∷ users) = ground (arith, first-last u users)

-- Rows of stored users give a user that is not stored nothing.
sum_of-absent :
    (id : Ident) (users : List User) (txns : List CoinTransaction)
    → first (has_id id) users ≡ none
    → All (IsOwned users) txns
    → sum_of id txns ≡ pos 0
sum_of-absent id users [] e h = refl
sum_of-absent id users (t ∷ txns) e h = elim (Bool-cases (t.user_id == id)) [
  | inl q ↦ absurd (h.0 (rw ((==_iff t.user_id id).0 q) e))
  | inr q ↦ rw (q, sum_of-absent id users txns e h.1) (omega int_laws)
]

IsBalanced-append :
    (txns : List CoinTransaction) (t : CoinTransaction) (users : List User)
    → All (λ v. v.id ≢ t.user_id) users
    → All (IsBalanced txns) users
    → All (IsBalanced (txns ++ t ∷ [])) users
IsBalanced-append txns t [] o h = tt
IsBalanced-append txns t (v ∷ users) o h =
    (grind (int_laws, sum_of-append v.id txns t), IsBalanced-append txns t users o.1 h.1)

-- A new user with a first audit row for the whole of the balance.
pub joined-IsSound :
    (u : User) (t : CoinTransaction) (db : Db)
    → IsSound db
    → All (HasOther u) db.users
    → t.user_id ≡ u.id
    → t.amount ≡ u.coin_balance
    → t.balance_after ≡ u.coin_balance
    → pos 0 ≤ℤ u.coin_balance
    → IsSound (record db { users = db.users ++ u ∷ []; coin_txns = db.coin_txns ++ t ∷ [] })
joined-IsSound u t db s o e a b p =
    let zero : sum_of u.id db.coin_txns ≡ pos 0 =
      sum_of-absent u.id db.users db.coin_txns (first-none u db.users o) s.owned in
    let total : u.coin_balance ≡ sum_of u.id (db.coin_txns ++ t ∷ []) =
      grind (int_laws, sum_of-append u.id db.coin_txns t) in
    record {
      unique = HaveUniqueIds-append db.users u s.unique o;
      balanced =
          All-append _ db.users (IsBalanced-append db.coin_txns t db.users (rw e o) s.balanced)
            total;
      covered = All-append IsCovered db.users s.covered p;
      audited =
          IsAudited-append [] db.coin_txns t s.audited
            (b ∙ total ∙ ap (λ i. sum_of i (db.coin_txns ++ t ∷ [])) (sym e));
      owned =
          All-append _ db.coin_txns
            (All-map (IsOwned db.users) _ db.coin_txns (λ r q. first-append r.user_id db.users u q)
              s.owned)
            (rw e (first-last u db.users));
    }
