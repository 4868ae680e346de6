-- ===== src/Service/Success.antt =====
-- The outcome of a transaction and of what follows it.
use dropsort.Prelude.{◌≡◌, refl}
use dropsort.Db.{Db}
use dropsort.Exec.{Result, ok, err, continue}
use dropsort.Session.{Session, Tx}
use dropsort.Service.{World, Action, begin, session, settle}

-- After an exception the tables are what they were, and after a return they meet `P`.
abbrev pub Outcome {ℓ} : {A : Type ℓ} → Db → (A → Db → Type 0) → Result A × World → Type 0
Outcome db P (ok a, w) = P a w.db
Outcome db P (err _, w) = w.db ≡ db

module _ {ℓ} {A : Type ℓ} (P : A → Db → Type 0) where
  settle-Outcome :
      (r : Result A × Session) (w : World)
      → ((a : A) (s : Session) → r ≡ (ok a, s) → P a s.db)
      → Outcome w.db P (settle r w)
  settle-Outcome (ok a, s) w h = h a s refl
  settle-Outcome (err e, s) w h = refl

  pub begin-Outcome :
      (m : Tx A) (w : World)
      → ((a : A) (s : Session) → m (session w) ≡ (ok a, s) → P a s.db)
      → Outcome w.db P (begin m w)
  unfolding begin
  begin-Outcome m w h = settle-Outcome (m (session w)) w h

module _ {ℓ κ} {A : Type ℓ} {B : Type κ} (db : Db) (P : A → Db → Type 0) (Q : B → Db → Type 0) where
  -- What follows a transaction: it starts from tables that meet `P`.
  pub continue-Outcome :
      (r : Result A) (w : World) (f : A → Action B)
      → Outcome db P (r, w)
      → ((a : A) (w' : World) → P a w'.db → Outcome db Q (f a w'))
      → Outcome db Q (continue r f w)
  continue-Outcome (ok a) w f h k = k a w h
  continue-Outcome (err e) w f h k = h

-- What held before and holds where `P` does, holds after.
pub Outcome-keeps {ℓ} :
    {A : Type ℓ} (I : Db → Type 0) (db : Db) (P : A → Db → Type 0)
    → ((a : A) (db' : Db) → P a db' → I db')
    → I db
    → (r : Result A) (w : World) → Outcome db P (r, w)
    → I w.db
Outcome-keeps I db P f h (ok a) w o = f a w.db o
Outcome-keeps I db P f h (err e) w o = rw o h
