-- ===== src/Exec/Success.antt =====
-- What a call that returned tells of the steps that it is made of.
use dropsort.Prelude.{◌≡◌, refl, Option, none, some}
use dropsort.Exec.{Exc, Result, ok, err, Exec, pure, continue, or_raise, ◌>>=◌}

module _ {ℓ κ} {S : Type 0} {A : Type ℓ} {B : Type κ} where
  continue-eq-ok :
      (r : Result A) (f : A → Exec S B) (s : S) {b : B} {t : S}
      → continue r f s ≡ (ok b, t)
      → (a : A) × (s' : S) × (◌≡◌ {A = Result A × S} (r, s) (ok a, s')) × (f a s' ≡ (ok b, t))
  continue-eq-ok (ok a) f s h = (a, s, refl, h)
  continue-eq-ok (err e) f s h = cc

  -- A sequence returned: its first part did, and then the rest.
  pub bind-eq-ok :
      (m : Exec S A) (f : A → Exec S B) (s : S) {b : B} {t : S}
      → (m >>= f) s ≡ (ok b, t)
      → (a : A) × (s' : S) × (m s ≡ (ok a, s')) × (f a s' ≡ (ok b, t))
  bind-eq-ok m f s h = let (r, s') = m s in continue-eq-ok r f s' h

module _ {ℓ} {S : Type 0} {A : Type ℓ} where
  pub pure-eq-ok : (a : A) (s : S) {b : A} {t : S} → pure a s ≡ (ok b, t) → (a ≡ b) × (s ≡ t)
  pure-eq-ok a s h = (cc, cc)

  pub or_raise-eq-ok :
      (e : Exc) (o : Option A) (s : S) {a : A} {t : S}
      → or_raise e o s ≡ (ok a, t)
      → (o ≡ some a) × (s ≡ t)
  or_raise-eq-ok e none s h = cc
  or_raise-eq-ok e (some a) s h = (cc, cc)
