-- ===== src/Exec.antt =====
-- Code that changes a state and may raise: the result is beside the state that the code left, also
-- after an exception. A session and a request are two such states.
use dropsort.Prelude.{⊤, if◌then◌else◌, ℕ, String, Bool, true, false, Option, none, some}
pub mod Success
use dropsort.Prelude.Float.{Float}
use dropsort.Domain.{Uuid}

-- The exceptions of the services and the repositories, and those of the database that they let
-- through. `external` is a failure of a system that is not the database.
pub data Exc : Type 0 where
  user_not_found : Uuid → Exc
  user_already_exists : String → Exc
  cannot_act_on_self : Exc
  cannot_manage_administrator : Exc
  user_removed : Uuid → Exc
  batch_not_found : Uuid → Exc
  prediction_not_found : Uuid → Exc
  relabel_not_allowed : Uuid → Float → Exc
  upload_rejected : String → Exc
  integrity_error : Exc
  data_error : Exc
  external : String → Exc

pub data Result {ℓ} (A : Type ℓ) : Type ℓ where
  ok : A → Result A
  err : Exc → Result A

abbrev pub is_ok {ℓ} : {A : Type ℓ} → Result A → Bool
is_ok (ok _) = true
is_ok (err _) = false

abbrev pub Exec {ℓ} : Type 0 → Type ℓ → Type ℓ
Exec S A = S → Result A × S

module _ {ℓ} {S : Type 0} {A : Type ℓ} where
  abbrev pub pure : A → Exec S A
  pure a s = (ok a, s)

  abbrev pub raise : Exc → Exec S A
  raise e s = (err e, s)

module _ {ℓ κ} {S : Type 0} {A : Type ℓ} {B : Type κ} where
  abbrev pub continue : Result A → (A → Exec S B) → Exec S B
  continue (ok a) f s = f a s
  continue (err e) f s = (err e, s)

  infixl 5 ◌>>=◌ ◌>>◌
  abbrev pub ◌>>=◌ : Exec S A → (A → Exec S B) → Exec S B
  ◌>>=◌ m f s = let (r, s') = m s in continue r f s'

  abbrev pub ◌>>◌ : Exec S A → Exec S B → Exec S B
  ◌>>◌ m k s = let (r, s') = m s in continue r (λ _. k) s'

-- `if test: raise e`
abbrev pub raise_if : {S : Type 0} → Bool → Exc → Exec S ⊤
raise_if test e s = (if test then err e else ok tt, s)

-- `if found is None: raise e`
abbrev pub or_raise {ℓ} : {S : Type 0} {A : Type ℓ} → Exc → Option A → Exec S A
or_raise e none = raise e
or_raise e (some a) = pure a
