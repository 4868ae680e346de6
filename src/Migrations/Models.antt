-- ===== src/Migrations/Models.antt =====
-- app/db/models.py: the columns of the ORM classes, and that the revisions make them.
use mathlib.Core.Option
use dropsort.Prelude.{
  String, ◌≡◌, refl, Bool, true, false, Option, none, some, List, [], ◌∷◌, ◌++◌, map, find?, arith,
}
use dropsort.Session.{Env}
use dropsort.Access.{migrated}
use dropsort.Migrations.Catalog.{
  ColumnType, uuid, varchar, boolean, integer, float, timestamp, jsonb, Column, Table, Catalog, run,
  is_named, with_column,
}
use dropsort.Migrations.Apart.{IsApart, no_table, no_index, no_column, with_column_left}
use dropsort.Migrations.Revisions.{
  deleted_at, original_email, ix_users_email, ix_predictions_batch_id,
  ix_predictions_content_sha256, ix_audit_actor_created, ix_audit_target, upgrade, users_table,
  casbin_rule_table, batches_table, predictions_table, audit_log_table, initial_admin,
}

-- A name with its type, whether it may be NULL, and the table that it refers to.
abbrev pub Shape : Type 0
Shape = String × ColumnType × Bool × Option String

abbrev shape : Column → Shape
shape k = (k.name, k.type, k.nullable, k.references)

abbrev pub shapes : String → Catalog → Option (List Shape)
shapes name c = Option.map (λ (t : Table). map shape t.columns) (find? (is_named name) c.tables)

abbrev required : String → ColumnType → Shape
required name type = (name, type, false, none)

abbrev nullable : String → ColumnType → Shape
nullable name type = (name, type, true, none)

-- `SQLAlchemyBaseUserTableUUID` of fastapi-users
abbrev pub base_user_columns : List Shape
base_user_columns =
    required "id" uuid
    ∷ required "email" (varchar 320)
    ∷ required "hashed_password" (varchar 1024)
    ∷ required "is_active" boolean
    ∷ required "is_superuser" boolean
    ∷ required "is_verified" boolean
    ∷ []

abbrev pub user_columns : List Shape
user_columns =
    required "role" (varchar 32)
    ∷ required "created_at" timestamp
    ∷ nullable "deleted_at" timestamp
    ∷ nullable "original_email" (varchar 320)
    ∷ []

abbrev pub casbin_rule_columns : List Shape
casbin_rule_columns =
    required "id" integer
    ∷ nullable "ptype" (varchar 255)
    ∷ nullable "v0" (varchar 255)
    ∷ nullable "v1" (varchar 255)
    ∷ nullable "v2" (varchar 255)
    ∷ nullable "v3" (varchar 255)
    ∷ nullable "v4" (varchar 255)
    ∷ nullable "v5" (varchar 255)
    ∷ []

abbrev pub batch_columns : List Shape
batch_columns =
    required "id" uuid
    ∷ nullable "external_id" (varchar 256)
    ∷ required "state" (varchar 32)
    ∷ required "created_at" timestamp
    ∷ required "updated_at" timestamp
    ∷ []

abbrev pub prediction_columns : List Shape
prediction_columns =
    required "id" uuid
    ∷ ("batch_id", uuid, false, some "batches")
    ∷ required "filename" (varchar 512)
    ∷ required "content_sha256" (varchar 64)
    ∷ required "minio_input_key" (varchar 1024)
    ∷ nullable "minio_overlay_key" (varchar 1024)
    ∷ required "label" (varchar 64)
    ∷ required "top1_confidence" float
    ∷ required "top5_json" jsonb
    ∷ nullable "relabel_label" (varchar 64)
    ∷ ("relabel_actor_id", uuid, true, some "users")
    ∷ nullable "relabel_at" timestamp
    ∷ required "created_at" timestamp
    ∷ []

abbrev pub audit_log_columns : List Shape
audit_log_columns =
    required "id" uuid
    ∷ ("actor_id", uuid, false, some "users")
    ∷ required "action" (varchar 64)
    ∷ required "target_type" (varchar 32)
    ∷ required "target_id" (varchar 64)
    ∷ required "created_at" timestamp
    ∷ nullable "metadata_jsonb" jsonb
    ∷ []

module _ (env : Env) (password : String) where
  -- The catalog after all revisions.
  abbrev pub upgraded : Catalog → Catalog
  upgraded c = record {
    tables =
        audit_log_table
        ∷ predictions_table
        ∷ batches_table
        ∷ casbin_rule_table
        ∷ with_column "users" original_email (with_column "users" deleted_at users_table)
        ∷ c.tables;
    indexes =
        (ix_audit_target ∷ ix_audit_actor_created ∷ ix_predictions_content_sha256
          ∷ ix_predictions_batch_id ∷ ix_users_email ∷ [])
        ++ c.indexes;
    casbin_rules = migrated;
    users = initial_admin env password ∷ [];
  }

  pub run-upgrade : (c : Catalog) → IsApart c → run (upgrade env password) c ≡ some (upgraded c)
  unfolding run
  run-upgrade c h = ground (
    arith,
    no_table c h "users" refl,
    no_index c h "ix_users_email" refl,
    no_table c h "casbin_rule" refl,
    no_table c h "batches" refl,
    no_table c h "predictions" refl,
    no_index c h "ix_predictions_batch_id" refl,
    no_index c h "ix_predictions_content_sha256" refl,
    no_table c h "audit_log" refl,
    no_index c h "ix_audit_actor_created" refl,
    no_index c h "ix_audit_target" refl,
    no_column c h "deleted_at",
    no_column c h "original_email",
    with_column_left c h "users" refl deleted_at,
    with_column_left c h "users" refl original_email,
    h.no_rules,
    h.no_users,
  )

  -- On a catalog that has nothing of the program, `alembic upgrade head` is refused nowhere, and then
  -- each table has the columns of its ORM class with their types, NULLs and foreign keys, the users
  -- those of fastapi-users first; the policy is the migrated one, and the only account is that of the
  -- first administrator.
  pub upgrade-models :
      (c : Catalog)
      → IsApart c
      → (c' : Catalog) × (run (upgrade env password) c ≡ some c')
        × (shapes "users" c' ≡ some (base_user_columns ++ user_columns))
        × (shapes "casbin_rule" c' ≡ some casbin_rule_columns)
        × (shapes "batches" c' ≡ some batch_columns)
        × (shapes "predictions" c' ≡ some prediction_columns)
        × (shapes "audit_log" c' ≡ some audit_log_columns)
        × (c'.casbin_rules ≡ migrated)
        × (c'.users ≡ initial_admin env password ∷ [])
  upgrade-models c h = (upgraded c, run-upgrade c h, refl, refl, refl, refl, refl, refl, refl)
