-- ===== src/Action.antt =====
-- apps/api/src/common/domain.errors.ts, and what a service method does: it reads and writes the
-- database and may throw. What was written before a throw stays written unless a transaction
-- rolls it back, so the state comes back beside the error too.
pub mod Runs
pub mod Gives
use novelhub.Prelude.{ℕ, Bool, true, false, Option, none, some, ◌==◌, if◌then◌else◌}
use novelhub.Prelude.Int.{ℤ}

-- Identifiers (UUIDs, Stripe ids) are only compared, so they are numbers; 0 is the empty text.
abbrev pub Ident : Type 0
Ident = ℕ

-- A text that is missing or empty fails `if (x)`.
abbrev pub truthy : Option Ident → Option Ident
truthy none = none
truthy (some id) = if id == 0 then none else some id

-- The bag of extra fields that a 402 carries for the paywall.
pub record PaywallContext : Type 0 where
  pub chapter_id : Ident
  pub coin_cost : ℤ
  pub current_balance : ℤ

-- The statuses of `DomainErrorStatus`.
pub data DomainErrorStatus : Type 0 where
  bad_request unauthorized payment_required forbidden not_found conflict internal :
      DomainErrorStatus

pub data Error : Type 0 where
  -- `DomainError`; the message texts are left out
  domain : DomainErrorStatus → Option PaywallContext → Error
  -- `InsufficientBalanceError`
  insufficient_balance : ℤ → ℤ → Error
  -- Prisma's P2002 and P2025, P2034 or a serialization failure, and any other failure
  unique_violation record_not_found write_conflict other : Error

abbrev pub status_code : DomainErrorStatus → ℕ
status_code bad_request = 400
status_code unauthorized = 401
status_code payment_required = 402
status_code forbidden = 403
status_code not_found = 404
status_code conflict = 409
status_code internal = 500

pub data Result (A : Type 0) : Type 0 where
  ok : A → Result A
  err : Error → Result A

-- An action on a state, with exceptions.
abbrev pub Exec : Type 0 → Type 0 → Type 0
Exec S A = S → Result A × S

module _ {S A : Type 0} where
  abbrev pub pure : A → Exec S A
  pure a s = (ok a, s)

  abbrev pub throw : Error → Exec S A
  throw e s = (err e, s)

  abbrev pub gets : (S → A) → Exec S A
  gets f s = (ok (f s), s)

  abbrev pub or_throw : Option A → Error → Exec S A
  or_throw none e = throw e
  or_throw (some a) _ = pure a

  -- `try { m } catch (e) { h(e) }`
  abbrev pub catch : Exec S A → (Error → Exec S A) → Exec S A
  catch m h s = let (r, s') = m s in elim r [ ok a ↦ (ok a, s') | err e ↦ h e s' ]

module _ {S A B : Type 0} where
  -- `try { m } catch (e) { return h(e) }`, and then `f`
  abbrev pub try_then : Exec S A → (A → Exec S B) → (Error → Exec S B) → Exec S B
  try_then m f h s = let (r, s') = m s in elim r [ ok a ↦ f a s' | err e ↦ h e s' ]

  -- `if (!o) { m } else { f(o) }`
  abbrev pub match_option : Option A → Exec S B → (A → Exec S B) → Exec S B
  match_option none m f = m
  match_option (some a) m f = f a

module _ {S : Type 0} where
  infixl 5 ◌>>=◌ ◌>>◌
  abbrev pub ◌>>=◌ : {A B : Type 0} → Exec S A → (A → Exec S B) → Exec S B
  ◌>>=◌ m f s = let (r, s') = m s in elim r [ ok a ↦ f a s' | err e ↦ (err e, s') ]

  abbrev pub ◌>>◌ : {A B : Type 0} → Exec S A → Exec S B → Exec S B
  m >> k = m >>= λ _. k

  abbrev pub modify : (S → S) → Exec S (Unit {0})
  modify f s = (ok tt, f s)

  -- `if (b) throw e`
  abbrev pub throw_if : Bool → Error → Exec S (Unit {0})
  throw_if true e = throw e
  throw_if false e = pure tt
