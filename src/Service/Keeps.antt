-- ===== src/Service/Keeps.antt =====
-- Facts about the tables that an action keeps, whether it returns or raises.
use dropsort.Prelude.{Bool}
use dropsort.Db.{Db}
use dropsort.Exec.{Exc, Result, ok, err, pure, raise, raise_if, continue, ◌>>=◌}
use dropsort.Session.{Session, Tx}
use dropsort.Session.Keeps.{Keeps}
use dropsort.Service.{World, Action, begin, session, settle}

pub record KeepsDb {ℓ} {A : Type ℓ} (P : Db → Type 0) (m : Action A) : Type ℓ where
  pub at : (w : World) → P w.db → P (m w).1.db

module _ {ℓ κ} {A : Type ℓ} {B : Type κ} {P : Db → Type 0} where
  continue-keeps :
      (r : Result A) (w : World) (f : A → Action B)
      → P w.db
      → ((a : A) → KeepsDb P (f a))
      → P (continue r f w).1.db
  continue-keeps (ok a) w f h k = (k a).at w h
  continue-keeps (err e) w f h k = h

  pub KeepsDb-bind :
      (m : Action A) (f : A → Action B)
      → KeepsDb P m
      → ((a : A) → KeepsDb P (f a))
      → KeepsDb P (m >>= f)
  KeepsDb-bind m f km kf = record {
    at = λ w h. let (r, w') = m w in continue-keeps r w' f (km.at w h) kf;
  }

settle-keeps {ℓ} :
    {A : Type ℓ} (P : Db → Type 0) (r : Result A × Session) (w : World)
    → P w.db
    → P r.1.db
    → P (settle r w).1.db
settle-keeps P (ok a, s) w h k = k
settle-keeps P (err e, s) w h k = h

module _ {ℓ} {A : Type ℓ} {P : Db → Type 0} where
  -- A transaction whose block keeps it.
  pub KeepsDb-begin : (m : Tx A) → Keeps P m → KeepsDb P (begin m)
  unfolding begin
  KeepsDb-begin m k = record {
    at = λ w h.
        settle-keeps P (m (session w)) w h (k.at (session w) (record { start = h; now = h })).now;
  }

  pub KeepsDb-pure : (a : A) → KeepsDb P (pure a)
  KeepsDb-pure a = record { at = λ w h. h }

  pub KeepsDb-raise : (e : Exc) → KeepsDb P (raise {A = A} e)
  KeepsDb-raise e = record { at = λ w h. h }

module _ {P : Db → Type 0} where
  pub KeepsDb-raise_if : (b : Bool) (e : Exc) → KeepsDb P (raise_if b e)
  KeepsDb-raise_if b e = record { at = λ w h. h }
