-- ===== src/Tests/Answers.antt =====
-- Health, request identifiers, UUIDs, the audit view and overlays at small inputs.
use dropsort.Prelude.{
  ⊤, ◌≡◌, ◌↔◌, refl, inl, String, true, false, none, some, [], ◌∷◌, map, arith, uuid_str,
}
use dropsort.Prelude.Uuids.{parse_uuid}
use dropsort.Domain.{AuditEntryOut, reviewer}
use dropsort.Db.{AuditLog}
use dropsort.Exec.{Exc, ok}
use dropsort.Service.{World}
use dropsort.Access.{migrated, get_overlay}
use dropsort.Api.{Envelope, refused, sent}
use dropsort.Api.Health.{Probes, answered, raised, health, check_postgres, check_redis}
use dropsort.Api.Health.Healthy.{IsHealthy, health_iff}
use dropsort.Api.Predictions.Overlay.{get_prediction_overlay, HasOverlay, overlay_iff}
use dropsort.Core.RequestId.{
  Scope, IsChosen, middleware, respond, response_start, response_body, request_id_header,
  error_response-Traced,
}
use dropsort.Services.AuditService.{list_paginated}
use dropsort.Services.AuditService.Described.{
  described, page_rows, list_paginated-described, described-target,
}
use dropsort.Tests.Fixture.{test_env, world, tables, jane, unsure}
use dropsort.Access.Matrix.{permitted-granted}
use dropsort.Tests.Access.{casbin, casbin-IsCasbin}

abbrev probes : Probes
probes = record {
  postgres = answered tt;
  ping = answered true;
  vault_initialized = answered true;
  vault_sealed = answered false;
  policy = answered migrated;
  bucket_name = "dropsort";
  bucket_exists = answered true;
  weights_present = answered true;
  elapsed = λ name. 1;
}

health_run : (health none (record probes { ping = raised "refused" })).status_code ≡ 503
unfolding health check_postgres check_redis
health_run = refl

health_iff_example :
    let h = health none probes in
    ((h.status_code ≡ 200) ↔ IsHealthy probes)
    × ((h.status_code ≡ 503) ↔ (¬ IsHealthy probes))
    × ((h.ok ≡ true) ↔ IsHealthy probes)
health_iff_example = health_iff none probes

abbrev scope : Scope
scope = record { kind = "http"; headers = ("host", "localhost") ∷ ("x-request-id", "abc") ∷ [] }

error_response-Traced_example :
    (id : String) × IsChosen "new" scope id
    × (e : Envelope) × (middleware "new"
          (respond {A = ⊤} [] (refused 404 "Batch not found"))
          scope
          none
        ≡ response_start 404 ((request_id_header, id) ∷ []) ∷ response_body e ∷ [])
    × (e.request_id ≡ some id)
    × (e.message ≡ "Batch not found")
error_response-Traced_example = error_response-Traced "new" [] 404 "Batch not found" scope none refl

-- Decoration, upper case and underscores.
parse_uuid_run : parse_uuid "{urn:uuid:00000000-0000-0000-0000-0000000000AF}" ≡ some 0xaf
unfolding parse_uuid
parse_uuid_run = refl

parse_uuid_refused : parse_uuid "scan-1" ≡ none
unfolding parse_uuid
parse_uuid_refused = refl

-- An invitation that the administrator made.
abbrev entry : AuditLog
entry = record {
  id = 40;
  actor_id = 1;
  action = "user_invited";
  target_type = "user";
  target_id = uuid_str 2;
  created_at = 7;
  metadata_jsonb = none;
}

abbrev audited : World
audited = record world { db = record tables { audit_log = entry ∷ [] } }

list_paginated-described_example :
    let (r, w') = list_paginated 0 50 audited in
    (r ≡ ok (map (described audited.db) (page_rows 0 50 audited.db))) × (w'.db ≡ audited.db)
list_paginated-described_example = list_paginated-described 0 50 audited

abbrev shown : AuditEntryOut
shown = record {
  id = 40;
  actor_id = 1;
  actor_email = none;
  action = "user_invited";
  target_type = "user";
  target_id = uuid_str 2;
  target_label = none;
  created_at = 7;
  metadata_jsonb = none;
}

described-target_example : (described audited.db shown).target_label ≡ some "jane@example.com"
described-target_example =
    described-target audited.db 2 shown "jane@example.com" (omega arith) refl
      (inl (jane, refl, refl, refl))

abbrev drawn : World
drawn = record world {
  db = record tables {
    predictions = record unsure { minio_overlay_key = some "overlays/a.png" } ∷ [];
  };
  policy = migrated;
  objects = record { key = "overlays/a.png"; content = 9 ∷ []; content_type = "image/png" } ∷ [];
}

abbrev exc_text : Exc → String
exc_text e = "error"

overlay_iff_example :
    ((get_prediction_overlay test_env exc_text casbin jane 30 drawn).0 ≡ sent 200 (9 ∷ []))
    ↔ HasOverlay 30 (9 ∷ []) drawn
overlay_iff_example =
    overlay_iff test_env exc_text casbin jane 30 drawn (9 ∷ [])
      (permitted-granted casbin casbin-IsCasbin reviewer get_overlay) refl
