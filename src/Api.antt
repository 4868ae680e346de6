-- ===== src/Api.antt =====
-- app/api, api/deps.py and core/errors.py: a permission is checked, the service is called, and its
-- exceptions become answers.
pub mod Admin
pub mod Predictions
pub mod Batches
pub mod Health
pub mod Listings
pub mod Users
use Prim.Native.String.{slice, ◌++◌ as append}
use dropsort.Prelude.{
  ⊤, ℕ, zero, suc, ◌+◌, ◌*◌, ◌/◌, ◌%◌, ◌^◌, String, Bool, true, false, not, Option, none, some,
  List, [], ◌∷◌, format, if◌then◌else◌, ltb, ◌==◌,
}
use dropsort.Domain.{Uuid, Role}
use dropsort.Db.{User}
use dropsort.Exec.{Exc, Result, ok, err}
use dropsort.Service.{World, Action}
use dropsort.Access.{Casbin, Endpoint, permitted}

-- What a handler ends in: an answer, an `HTTPException`, or an exception that no handler expects.
pub data Reply {ℓ} (A : Type ℓ) : Type ℓ where
  sent : ℕ → A → Reply A
  refused : ℕ → String → Reply A
  crashed : Exc → Reply A

-- The `except` clauses of an endpoint.
abbrev pub Translation : Type 0
Translation = Exc → Option (ℕ × String)

abbrev pub translate {ℓ} : {A : Type ℓ} → Exc → Option (ℕ × String) → Reply A
translate e none = crashed e
translate e (some (status, detail)) = refused status detail

abbrev pub reply {ℓ} : {A : Type ℓ} → ℕ → Translation → Result A → Reply A
reply status errors (ok a) = sent status a
reply status errors (err e) = translate e (errors e)

module _ (casbin : Casbin) where
  abbrev guarded {ℓ} : {A : Type ℓ} → Bool → ℕ → Translation → Action A → World → Reply A × World
  guarded false status errors call w = (refused 403 "Permission denied", w)
  guarded true status errors call w = let (r, w') = call w in (reply status errors r, w')

  -- An endpoint behind `require_permission`, for the authenticated caller.
  unfoldable pub endpoint {ℓ} :
      {A : Type ℓ} → Endpoint → User → ℕ → Translation → Action A → World → Reply A × World
  endpoint e user status errors call w =
      guarded (permitted casbin w.policy user.role e) status errors call w

-- The error envelope of core/errors.py with the status of its response.
pub record Envelope : Type 0 where
  pub status : ℕ
  pub code : String
  pub message : String
  pub request_id : Option String

digit : ℕ → String
digit d = slice "0123456789" d (d + 1)

-- `str(n)` for a number of at most as many digits as there is fuel, a double having at most 309.
unfoldable pub decimal : ℕ → ℕ → String
unfolding digit
decimal zero n = ""
decimal (suc fuel) n =
    let front = decimal fuel (n / 10) in if ltb n 10 then digit n else append front (digit (n % 10))

-- The handlers of an `HTTPException` and of any other exception, with the identifier of the request
-- that `get_current_request_id` finds.
abbrev pub envelope {ℓ} : {A : Type ℓ} → Option String → Reply A → Option Envelope
envelope request_id (sent _ _) = none
envelope request_id (refused status detail) = some (record {
  status = status;
  code = format ("http_" ∷ decimal 3 status ∷ []);
  message = detail;
  request_id = request_id;
})
envelope request_id (crashed e) = some (record {
  status = 500;
  code = "internal_error";
  message = "Internal server error";
  request_id = request_id;
})
