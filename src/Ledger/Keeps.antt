-- ===== src/Ledger/Keeps.antt =====
-- Invariants of actions, one rule for each way to build an action.
use novelhub.Prelude.{Bool, true, false, Option, none, some, ◌≡◌, refl, if◌then◌else◌}
use novelhub.Action.{
  Error, Result, ok, err, Exec, pure, throw, gets, or_throw, catch, throw_if, match_option,
  try_then, ◌>>=◌,
}
use novelhub.Prisma.{commit}
use novelhub.Schema.{Db, Action}
use novelhub.Ledger.{IsSound}
use novelhub.Ledger.Sound.{same-IsSound}

-- `m` keeps `P`, whether it returns or throws.
pub record Keeps {S A : Type 0} (P : S → Type 0) (m : Exec S A) : Type 0 where
  pub at : (s : S) → P s → P (m s).1

abbrev pub Holds : {S A : Type 0} → (S → Type 0) → Result A × S → Type 0
Holds P (ok a, s) = P s
Holds P (err e, s) = Unit

-- `m` keeps `P` if it returns; a throw may leave anything behind.
pub record KeepsIfOk {S A : Type 0} (P : S → Type 0) (m : Exec S A) : Type 0 where
  pub at : (s : S) → P s → Holds P (m s)

module _ {S A : Type 0} {P : S → Type 0} where
  pub weaken : (m : Exec S A) → Keeps P m → KeepsIfOk P m
  weaken m k = record { at = λ s h. holds (m s) (k.at s h) }
    where
      holds : (r : Result A × S) → P r.1 → Holds P r
      holds (ok a, s) h = h
      holds (err e, s) h = tt

  -- What a transaction keeps if its body returns, it keeps in any case.
  pub transaction-Keeps : (m : Exec S A) → KeepsIfOk P m → Keeps P (λ s. commit (m s) s)
  transaction-Keeps m k = record { at = λ s h. kept s h (m s) (k.at s h) }
    where
      kept : (s : S) → P s → (r : Result A × S) → Holds P r → P (commit r s).1
      kept s h (ok a, s') p = p
      kept s h (err e, s') p = h

  -- An action that changes the state in several writes is judged by what it returns.
  pub ok_of_result :
      (m : Exec S A) → ((s s' : S) (a : A) → P s → m s ≡ (ok a, s') → P s') → KeepsIfOk P m
  ok_of_result m k = record { at = λ s h. judged s h (m s) refl }
    where
      judged : (s : S) → P s → (r : Result A × S) → m s ≡ r → Holds P r
      judged s h (ok a, s') e = k s s' a h e
      judged s h (err x, s') e = tt

  pub Keeps-pure : (a : A) → Keeps P (pure a)
  Keeps-pure a = record { at = λ s h. h }

  pub Keeps-throw : (e : Error) → Keeps P (throw {A = A} e)
  Keeps-throw e = record { at = λ s h. h }

  pub Keeps-gets : (f : S → A) → Keeps P (gets f)
  Keeps-gets f = record { at = λ s h. h }

  pub Keeps-or_throw : (o : Option A) (e : Error) → Keeps P (or_throw o e)
  Keeps-or_throw none e = record { at = λ s h. h }
  Keeps-or_throw (some a) e = record { at = λ s h. h }

  pub Keeps-if : (b : Bool) (m n : Exec S A) → Keeps P m → Keeps P n → Keeps P (if b then m else n)
  Keeps-if true m n k l = k
  Keeps-if false m n k l = l

  pub Keeps-catch :
      (m : Exec S A) (h : Error → Exec S A)
      → Keeps P m
      → ((e : Error) → Keeps P (h e))
      → Keeps P (catch m h)
  Keeps-catch m h k l = record { at = λ s p. handled (m s) (k.at s p) }
    where
      handled :
          (r : Result A × S)
          → P r.1
          → let q : Result A × S = elim r.0 [ ok a ↦ (ok a, r.1) | err e ↦ h e r.1 ] in P q.1
      handled (ok a, s) p = p
      handled (err e, s) p = (l e).at s p

  pub ok_if :
      (b : Bool) (m n : Exec S A) → KeepsIfOk P m → KeepsIfOk P n → KeepsIfOk P (if b then m else n)
  ok_if true m n k l = k
  ok_if false m n k l = l

module _ {S : Type 0} {P : S → Type 0} where
  pub Keeps-throw_if : (b : Bool) (e : Error) → Keeps P (throw_if {S = S} b e)
  Keeps-throw_if true e = record { at = λ s h. h }
  Keeps-throw_if false e = record { at = λ s h. h }

module _ {S A B : Type 0} {P : S → Type 0} where
  pub Keeps-match :
      (o : Option A) (m : Exec S B) (f : A → Exec S B)
      → Keeps P m
      → ((a : A) → Keeps P (f a))
      → Keeps P (match_option o m f)
  Keeps-match none m f k l = k
  Keeps-match (some a) m f k l = l a

  pub ok_match :
      (o : Option A) (m : Exec S B) (f : A → Exec S B)
      → KeepsIfOk P m
      → ((a : A) → KeepsIfOk P (f a))
      → KeepsIfOk P (match_option o m f)
  ok_match none m f k l = k
  ok_match (some a) m f k l = l a

  pub Keeps-bind :
      (m : Exec S A) (f : A → Exec S B) → Keeps P m → ((a : A) → Keeps P (f a)) → Keeps P (m >>= f)
  Keeps-bind m f k l = record { at = λ s p. bound (m s) (k.at s p) }
    where
      bound :
          (r : Result A × S)
          → P r.1
          → let q : Result B × S = elim r.0 [ ok a ↦ f a r.1 | err e ↦ (err e, r.1) ] in P q.1
      bound (ok a, s) p = (l a).at s p
      bound (err e, s) p = p

  -- The rest may use what it was read from.
  pub Keeps-gets_bind :
      (g : S → A) (f : A → Exec S B) → ((s : S) → Keeps P (f (g s))) → Keeps P (gets g >>= f)
  Keeps-gets_bind g f k = record { at = λ s p. (k s).at s p }

  pub ok_bind :
      (m : Exec S A) (f : A → Exec S B)
      → KeepsIfOk P m
      → ((a : A) → KeepsIfOk P (f a))
      → KeepsIfOk P (m >>= f)
  ok_bind m f k l = record { at = λ s p. bound (m s) (k.at s p) }
    where
      bound :
          (r : Result A × S)
          → Holds P r
          → let q : Result B × S = elim r.0 [ ok a ↦ f a r.1 | err e ↦ (err e, r.1) ] in Holds P q
      bound (ok a, s) p = (l a).at s p
      bound (err e, s) p = tt

module _ {S A B : Type 0} {P : S → Type 0} where
  pub Keeps-try :
      (m : Exec S A) (f : A → Exec S B) (h : Error → Exec S B)
      → Keeps P m
      → ((a : A) → Keeps P (f a))
      → ((e : Error) → Keeps P (h e))
      → Keeps P (try_then m f h)
  Keeps-try m f h k l n = record { at = λ s p. tried (m s) (k.at s p) }
    where
      tried :
          (r : Result A × S)
          → P r.1
          → let q : Result B × S = elim r.0 [ ok a ↦ f a r.1 | err e ↦ h e r.1 ] in P q.1
      tried (ok a, s) p = (l a).at s p
      tried (err e, s) p = (n e).at s p

pub ruleset keeps_rules = (
  Keeps-pure, Keeps-throw, Keeps-gets, Keeps-or_throw, Keeps-throw_if, Keeps-if, Keeps-match,
  Keeps-catch, Keeps-try, Keeps-bind, transaction-Keeps,
)

pub ruleset ok_rules = (weaken, ok_if, ok_match, ok_bind)

-- An action that writes neither users nor audit rows.
pub untouched-Keeps :
    {A : Type 0} (m : Action A)
    → ((db : Db) → ((m db).1.users ≡ db.users) × ((m db).1.coin_txns ≡ db.coin_txns))
    → Keeps IsSound m
untouched-Keeps m u = record { at = λ db s. same-IsSound db (m db).1 (u db).0 (u db).1 s }
