-- ===== src/Tests/System.antt =====
-- The whole program at small inputs.
use dropsort.Prelude.{◌≡◌, refl, some, List, [], ◌∷◌, ◌++◌, length, arith, uuid_str}
use dropsort.Prelude.Float.{scaled}
use dropsort.Domain.{auditor}
use dropsort.Db.{Prediction, AuditLog}
use dropsort.Db.Tables.{row}
use dropsort.Db.Invariant.{IsValid, prediction_id}
use dropsort.Service.{World}
use dropsort.Pipeline.{verified}
use dropsort.Services.UserService.History.{role_change}
use dropsort.System.{
  Event, administered, relabelling, upload, failure, round, Setting, perform, Reachable, start,
  next,
}
use dropsort.System.Validity.{Reachable-IsValid}
use dropsort.System.Confident.{Reachable-confident}
use dropsort.System.Settled.{IsSettled, Reachable-IsSettled}
use dropsort.System.AppendOnly.{Reachable-audit_log}
use dropsort.Tests.Fixture.{test_env, clear_prefix, world, tables, tables-IsValid, unsure}

abbrev pub setting : Setting
setting = record {
  env = test_env;
  clear = clear_prefix;
  content = record { sha256 = λ bytes. uuid_str (length bytes); image = λ bytes. verified };
  max_mb = 25;
}

abbrev events : List Event
events =
    administered 1 (role_change 2 auditor)
    ∷ relabelling 30 "letter" 1
    ∷ upload (1 ∷ []) "x.tif"
    ∷ failure "scan-1" "a.tif" "unreadable"
    ∷ round
    ∷ []

abbrev final : World → List Event → World
final w [] = w
final w (e ∷ es) = final (perform setting e w) es

run_of :
    (w v : World) → Reachable setting w v → (es : List Event) → Reachable setting w (final v es)
run_of w v r [] = r
run_of w v r (e ∷ es) = run_of w (perform setting e v) (next r e) es

Reachable-IsValid_example : IsValid (final world events).db
Reachable-IsValid_example =
    Reachable-IsValid setting world (final world events) (run_of world world start events)
      tables-IsValid

-- The prediction of the fixture with a sure answer.
abbrev sure : Prediction
sure = record unsure { top1_confidence = scaled 1 0 }

abbrev sure_world : World
sure_world = record world { db = record tables { predictions = sure ∷ [] } }

sure_world-IsValid : IsValid sure_world.db
sure_world-IsValid = record {
  users = tables-IsValid.users;
  batches = tables-IsValid.batches;
  predictions = record {
    keyed = (refl, tt);
    hashes = (refl, tt);
    in_batches = refl;
    actors = refl;
  };
  audit = tables-IsValid.audit;
}

Reachable-confident_example :
    row prediction_id 30 (final sure_world events).db.predictions ≡ some sure
Reachable-confident_example =
    Reachable-confident setting sure refl sure_world (final sure_world events)
      (run_of sure_world sure_world start events) sure_world-IsValid refl

tables-IsSettled : IsSettled tables.batches
tables-IsSettled k b e p = ground arith

Reachable-IsSettled_example : IsSettled (final world events).db.batches
Reachable-IsSettled_example =
    Reachable-IsSettled setting world (final world events) (run_of world world start events)
      tables-IsValid tables-IsSettled

Reachable-audit_log_example :
    (entries : List AuditLog) × ((final world events).db.audit_log ≡ [] ++ entries)
Reachable-audit_log_example =
    Reachable-audit_log setting world (final world events) (run_of world world start events)
      tables-IsValid
