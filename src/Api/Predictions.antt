-- ===== src/Api/Predictions.antt =====
-- api/predictions.py
pub mod Overlay
pub mod Answers
use Prim.Native.String.{◌++◌ as append}
use dropsort.Prelude.{
  ℕ, ◌+◌, ◌*◌, ◌/◌, ◌%◌, ◌^◌, String, none, some, [], ◌∷◌, format, if◌then◌else◌, ltb, suc,
}
use dropsort.Prelude.Float.{Float, nan, units, below}
use dropsort.Prelude.Rounding.{half_even}
use dropsort.Domain.{Uuid, PredictionOut}
use dropsort.Db.{User}
use dropsort.Exec.{prediction_not_found, relabel_not_allowed}
use dropsort.Session.{Env}
use dropsort.Service.{World, Clear}
use dropsort.Access.{Casbin, relabel_prediction}
use dropsort.Api.{Reply, Translation, endpoint, decimal}
use dropsort.Services.PredictionService.{relabel}

-- The four decimals of a number of ten-thousandths.
abbrev places : ℕ → String
places n = format (
    decimal 309 (n / 10000)
    ∷ "."
    ∷ decimal 1 (n / 1000 % 10)
    ∷ decimal 1 (n / 100 % 10)
    ∷ decimal 1 (n / 10 % 10)
    ∷ decimal 1 (n % 10)
    ∷ [])

abbrev magnitude : ℕ → String
magnitude n = if ltb n (2 ^ 2098) then places (half_even (n * 10000) (2 ^ 1074)) else "inf"

-- `f"{x:.4f}"`
abbrev pub fixed_four : Float → String
fixed_four nan = "nan"
fixed_four (units n) = magnitude n
fixed_four (below n) = append "-" (magnitude (suc n))

abbrev pub relabel_errors : Translation
relabel_errors (prediction_not_found _) = some (404, "Prediction not found")
relabel_errors (relabel_not_allowed _ top1) =
    some (
      409,
      format ("Cannot relabel: confidence " ∷ fixed_four top1 ∷ " is above threshold 0.7" ∷ []),
    )
relabel_errors _ = none

module _ (env : Env) (clear : Clear) (casbin : Casbin) (user : User) where
  abbrev pub relabel_endpoint : Uuid → String → World → Reply PredictionOut × World
  relabel_endpoint prediction_id label =
      endpoint casbin relabel_prediction user 200 relabel_errors
        (relabel env clear prediction_id label user.id)
