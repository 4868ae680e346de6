-- ===== src/Session/Keeps.antt =====
-- Facts about the tables that a statement keeps, whether it returns or raises: one rule for each
-- way to build a statement.
use dropsort.Prelude.{◌≡◌, Bool, true, false, Bool-cases, inl, inr}
use dropsort.Db.{Db}
use dropsort.Exec.{Result, Exc, ok, err, pure, raise, ◌>>=◌, continue}
use dropsort.Session.{Session, Tx, gets, draw, write, rollback}

module _ (P : Db → Type 0) where
  -- The snapshot and the tables both have `P`.
  pub record Both (s : Session) : Type 0 where
    pub start : P s.start
    pub now : P s.db

-- The statement keeps `P` of the tables, and never touches the snapshot.
pub record Keeps {ℓ} {A : Type ℓ} (P : Db → Type 0) (m : Tx A) : Type ℓ where
  pub at : (s : Session) → Both P s → Both P (m s).1

module _ {ℓ} {A : Type ℓ} {P : Db → Type 0} where
  pub Keeps-pure : (a : A) → Keeps P (pure a)
  Keeps-pure a = record { at = λ s h. h }

  pub Keeps-raise : (e : Exc) → Keeps P (raise {A = A} e)
  Keeps-raise e = record { at = λ s h. h }

  pub Keeps-gets : (f : Db → A) → Keeps P (gets f)
  Keeps-gets f = record { at = λ s h. h }

module _ {ℓ κ} {A : Type ℓ} {B : Type κ} {P : Db → Type 0} where
  Keeps-continue :
      (r : Result A) (f : A → Tx B) → ((a : A) → Keeps P (f a)) → Keeps P (continue r f)
  Keeps-continue (ok a) f kf = kf a
  Keeps-continue (err e) f kf = Keeps-raise e

  pub Keeps-bind :
      (m : Tx A) (f : A → Tx B) → Keeps P m → ((a : A) → Keeps P (f a)) → Keeps P (m >>= f)
  Keeps-bind m f km kf = record {
    at = λ s h. let (r, s') = m s in (Keeps-continue r f kf).at s' (km.at s h);
  }

module _ {P : Db → Type 0} where
  pub Keeps-draw : Keeps P draw
  Keeps-draw = record { at = λ s h. record { start = h.start; now = h.now } }

  pub Keeps-write :
      (fit : Bool) (clash : Db → Bool) (f : Db → Db)
      → ((db : Db) → P db → clash db ≡ false → P (f db))
      → Keeps P (write fit clash f)
  Keeps-write false clash f kf = record { at = λ s h. h }
  Keeps-write true clash f kf = record {
    at = λ s h. elim (Bool-cases (clash s.db)) [
      | inl e ↦ rw e h
      | inr e ↦ rw e (record { start = h.start; now = kf s.db h.now e })
    ];
  }

  pub Keeps-rollback : Keeps P rollback
  Keeps-rollback = record { at = λ s h. record { start = h.start; now = h.start } }

pub ruleset keeps_rules =
    (Keeps-pure, Keeps-raise, Keeps-gets, Keeps-bind, Keeps-draw, Keeps-rollback)
