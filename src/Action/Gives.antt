-- ===== src/Action/Gives.antt =====
-- What holds of the answer and the state of an action that returns, one rule for each way to build
-- an action; and actions that leave the state as it was where they throw.
use novelhub.Prelude.{Bool, true, false, ◌≡◌, refl, if◌then◌else◌}
use mathlib.Core.Path.{subst}
use novelhub.Action.{Error, Result, ok, err, Exec, pure, throw, gets, catch, ◌>>=◌}
use novelhub.Prisma.{commit}
use novelhub.Ledger.Keeps.{Keeps}

abbrev pub Gave : {S A : Type 0} → (A → S → Type 0) → Result A × S → Type 0
Gave Q (ok a, s) = Q a s
Gave Q (err e, s) = Unit

pub record Gives {S A : Type 0} (Q : A → S → Type 0) (m : Exec S A) : Type 0 where
  pub at : (s : S) → Gave Q (m s)

module _ {S A : Type 0} {Q : A → S → Type 0} where
  pub gives-ok : (m : Exec S A) {a : A} {s s' : S} → Gives Q m → m s ≡ (ok a, s') → Q a s'
  gives-ok m {a} {s} {s'} g e = subst (Gave Q) e (g.at s)

  pub Gives-of_result :
      (m : Exec S A) → ((s s' : S) (a : A) → m s ≡ (ok a, s') → Q a s') → Gives Q m
  Gives-of_result m k = record { at = λ s. judged s (m s) refl }
    where
      judged : (s : S) (r : Result A × S) → m s ≡ r → Gave Q r
      judged s (ok a, s') e = k s s' a e
      judged s (err x, s') e = tt

  pub Gives-throw : (e : Error) → Gives Q (throw e)
  Gives-throw e = record { at = λ s. tt }

  pub Gives-gets : (f : S → A) → ((s : S) → Q (f s) s) → Gives Q (gets f)
  Gives-gets f h = record { at = h }

  pub Gives-if : (b : Bool) (m n : Exec S A) → Gives Q m → Gives Q n → Gives Q (if b then m else n)
  Gives-if true m n g h = g
  Gives-if false m n g h = h

  pub Gives-commit : (m : Exec S A) → Gives Q m → Gives Q (λ s. commit (m s) s)
  Gives-commit m g = record { at = λ s. committed s (m s) (g.at s) }
    where
      committed : (s : S) (r : Result A × S) → Gave Q r → Gave Q (commit r s)
      committed s (ok a, s') q = q
      committed s (err e, s') q = tt

  pub Gives-catch :
      (m : Exec S A) (h : Error → Exec S A)
      → Gives Q m
      → ((e : Error) → Gives Q (h e))
      → Gives Q (catch m h)
  Gives-catch m h g k = record { at = λ s. caught (m s) (g.at s) }
    where
      caught :
          (r : Result A × S)
          → Gave Q r
          → Gave Q (elim r.0 as (λ _. Result A × S) [ ok a ↦ (ok a, r.1) | err e ↦ h e r.1 ])
      caught (ok a, s) q = q
      caught (err e, s) q = (k e).at s

module _ {S A B : Type 0} {Q : B → S → Type 0} where
  pub Gives-bind : (m : Exec S A) (f : A → Exec S B) → ((a : A) → Gives Q (f a)) → Gives Q (m >>= f)
  Gives-bind m f g = record { at = λ s. bound (m s) }
    where
      bound :
          (r : Result A × S)
          → Gave Q (elim r.0 as (λ _. Result B × S) [ ok a ↦ f a r.1 | err e ↦ (err e, r.1) ])
      bound (ok a, s) = (g a).at s
      bound (err e, s) = tt

module _ {S A B : Type 0} {P : A → S → Type 0} {Q : B → S → Type 0} where
  -- The answer of the last step, relabelled.
  pub Gives-map :
      (m : Exec S A) (f : A → B)
      → Gives P m
      → ((a : A) (s : S) → P a s → Q (f a) s)
      → Gives Q (m >>= λ a. pure (f a))
  Gives-map m f g k = record { at = λ s. mapped (m s) (g.at s) }
    where
      mapped :
          (r : Result A × S)
          → Gave P r
          → Gave Q
              (elim r.0 as (λ _. Result B × S) [ ok a ↦ (ok (f a), r.1) | err e ↦ (err e, r.1) ])
      mapped (ok a, s) p = k a s p
      mapped (err e, s) p = tt

module _ {S A B : Type 0} {Q : B → S → Type 0} {P : A → Type 0} where
  -- The next step may rely on what the answer before it is like.
  pub Gives-where :
      (m : Exec S A) (f : A → Exec S B)
      → Gives (λ a s. P a) m
      → ((a : A) → P a → Gives Q (f a))
      → Gives Q (m >>= f)
  Gives-where m f g k = record { at = λ s. bound (m s) (g.at s) }
    where
      bound :
          (r : Result A × S)
          → Gave (λ a s. P a) r
          → Gave Q (elim r.0 as (λ _. Result B × S) [ ok a ↦ f a r.1 | err e ↦ (err e, r.1) ])
      bound (ok a, s) p = (k a p).at s
      bound (err e, s) p = tt

module _ {S A B : Type 0} {P : S → Type 0} where
  -- What one step brings about and the next one keeps.
  pub Gives-then-Keeps :
      (m : Exec S A) (f : A → Exec S B)
      → Gives (λ _ s. P s) m
      → ((a : A) → Keeps P (f a))
      → Gives (λ _ s. P s) (m >>= f)
  Gives-then-Keeps m f g k = record { at = λ s. bound (m s) (g.at s) }
    where
      kept : (r : Result B × S) → P r.1 → Gave (λ _ s. P s) r
      kept (ok b, s) p = p
      kept (err e, s) p = tt

      bound :
          (r : Result A × S)
          → Gave (λ _ s. P s) r
          → Gave
              (λ (_ : B) s. P s)
              (elim r.0 as (λ _. Result B × S) [ ok a ↦ f a r.1 | err e ↦ (err e, r.1) ])
      bound (ok a, s) p = kept (f a s) ((k a).at s p)
      bound (err e, s) p = tt
