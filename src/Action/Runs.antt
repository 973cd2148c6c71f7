-- ===== src/Action/Runs.antt =====
-- What a composed action does, from what its parts do.
use novelhub.Prelude.{◌≡◌, ap}
use novelhub.Action.{Error, ok, err, Exec, ◌>>=◌, catch, try_then}

module _ {S A B : Type 0} (m : Exec S A) (f : A → Exec S B) (s : S) {s' : S} where
  pub bind-ok : {a : A} → m s ≡ (ok a, s') → (m >>= f) s ≡ f a s'
  bind-ok e = ap (λ (r, t). elim r [ ok a ↦ f a t | err x ↦ (err x, t) ]) e

  pub bind-err : {x : Error} → m s ≡ (err x, s') → (m >>= f) s ≡ (err x, s')
  bind-err e = ap (λ (r, t). elim r [ ok a ↦ f a t | err y ↦ (err y, t) ]) e

  pub try-err : (h : Error → Exec S B) {x : Error} → m s ≡ (err x, s') → try_then m f h s ≡ h x s'
  try-err h e = ap (λ (r, t). elim r [ ok a ↦ f a t | err y ↦ h y t ]) e

  pub try-ok : (h : Error → Exec S B) {a : A} → m s ≡ (ok a, s') → try_then m f h s ≡ f a s'
  try-ok h e = ap (λ (r, t). elim r [ ok a ↦ f a t | err y ↦ h y t ]) e

module _ {S A : Type 0} (m : Exec S A) (h : Error → Exec S A) (s : S) {s' : S} where
  pub catch-ok : {a : A} → m s ≡ (ok a, s') → catch m h s ≡ (ok a, s')
  catch-ok e = ap (λ (r, t). elim r [ ok a ↦ (ok a, t) | err x ↦ h x t ]) e

  pub catch-err : {x : Error} → m s ≡ (err x, s') → catch m h s ≡ h x s'
  catch-err e = ap (λ (r, t). elim r [ ok a ↦ (ok a, t) | err y ↦ h y t ]) e
