-- ===== src/Migrations/Revisions.antt =====
-- The seven revisions of alembic/versions, and the tables of app/db/models.py.
use dropsort.Prelude.{
  String, Bool, true, false, ◌&&◌, ◌||◌, Option, none, some, List, [], ◌∷◌, ◌++◌, str_eq,
  if◌then◌else◌,
}
use dropsort.Domain.{admin}
use dropsort.Db.{User, CasbinRule}
use dropsort.Session.{Env}
use dropsort.Access.{seed_policies, upload_policies, overlay_policies, patch_policies}
use dropsort.Migrations.Catalog.{
  ColumnType, uuid, varchar, boolean, integer, float, timestamp, jsonb, Column, Table, Index, Op,
  create_table, drop_table, create_index, drop_index, add_column, drop_column, insert_rules,
  delete_rules, insert_users,
}

abbrev column : String → ColumnType → Column
column name type = record {
  name = name;
  type = type;
  nullable = false;
  unique = false;
  primary_key = false;
  references = none;
  server_default = none;
}

abbrev optional : String → ColumnType → Column
optional name type = record (column name type) { nullable = true }

abbrev with_default : String → Column → Column
with_default value k = record k { server_default = some value }

abbrev refer : String → Column → Column
refer table k = record k { references = some table }

abbrev unique_column : Column → Column
unique_column k = record k { unique = true }

abbrev id_column : Column
id_column = record (column "id" uuid) {
  primary_key = true;
  server_default = some "gen_random_uuid()";
}

abbrev moment : String → Column
moment name = with_default "now()" (column name timestamp)

abbrev pub users_table : Table
users_table = record {
  name = "users";
  columns =
      id_column
      ∷ unique_column (column "email" (varchar 320))
      ∷ column "hashed_password" (varchar 1024)
      ∷ with_default "TRUE" (column "is_active" boolean)
      ∷ with_default "FALSE" (column "is_superuser" boolean)
      ∷ with_default "TRUE" (column "is_verified" boolean)
      ∷ with_default "reviewer" (column "role" (varchar 32))
      ∷ moment "created_at"
      ∷ [];
  checks = "role IN ('admin', 'reviewer', 'auditor')" ∷ [];
}

abbrev pub casbin_rule_table : Table
casbin_rule_table = record {
  name = "casbin_rule";
  columns =
      record (column "id" integer) { primary_key = true }
      ∷ optional "ptype" (varchar 255)
      ∷ optional "v0" (varchar 255)
      ∷ optional "v1" (varchar 255)
      ∷ optional "v2" (varchar 255)
      ∷ optional "v3" (varchar 255)
      ∷ optional "v4" (varchar 255)
      ∷ optional "v5" (varchar 255)
      ∷ [];
  checks = [];
}

abbrev pub batches_table : Table
batches_table = record {
  name = "batches";
  columns =
      id_column
      ∷ unique_column (optional "external_id" (varchar 256))
      ∷ with_default "received" (column "state" (varchar 32))
      ∷ moment "created_at"
      ∷ moment "updated_at"
      ∷ [];
  checks = [];
}

abbrev pub predictions_table : Table
predictions_table = record {
  name = "predictions";
  columns =
      id_column
      ∷ refer "batches" (column "batch_id" uuid)
      ∷ column "filename" (varchar 512)
      ∷ unique_column (column "content_sha256" (varchar 64))
      ∷ column "minio_input_key" (varchar 1024)
      ∷ optional "minio_overlay_key" (varchar 1024)
      ∷ column "label" (varchar 64)
      ∷ column "top1_confidence" float
      ∷ column "top5_json" jsonb
      ∷ optional "relabel_label" (varchar 64)
      ∷ refer "users" (optional "relabel_actor_id" uuid)
      ∷ optional "relabel_at" timestamp
      ∷ moment "created_at"
      ∷ [];
  checks = [];
}

abbrev pub audit_log_table : Table
audit_log_table = record {
  name = "audit_log";
  columns =
      id_column
      ∷ refer "users" (column "actor_id" uuid)
      ∷ column "action" (varchar 64)
      ∷ column "target_type" (varchar 32)
      ∷ column "target_id" (varchar 64)
      ∷ moment "created_at"
      ∷ optional "metadata_jsonb" jsonb
      ∷ [];
  checks = [];
}

abbrev pub ix_users_email : Index
ix_users_email = record {
  name = "ix_users_email";
  table = "users";
  columns = "email" ∷ [];
  unique = true;
}

abbrev pub ix_predictions_batch_id : Index
ix_predictions_batch_id = record {
  name = "ix_predictions_batch_id";
  table = "predictions";
  columns = "batch_id" ∷ [];
  unique = false;
}

abbrev pub ix_predictions_content_sha256 : Index
ix_predictions_content_sha256 = record {
  name = "ix_predictions_content_sha256";
  table = "predictions";
  columns = "content_sha256" ∷ [];
  unique = true;
}

abbrev pub ix_audit_actor_created : Index
ix_audit_actor_created = record {
  name = "ix_audit_actor_created";
  table = "audit_log";
  columns = "actor_id" ∷ "created_at DESC" ∷ [];
  unique = false;
}

abbrev pub ix_audit_target : Index
ix_audit_target = record {
  name = "ix_audit_target";
  table = "audit_log";
  columns = "target_type" ∷ "target_id" ∷ [];
  unique = false;
}

-- `_resolve_admin_password_from_vault`: the environment, where it is set and not empty, or else
-- Vault, whose call may raise.
abbrev pub resolve_admin_password : Option String → Option String → Option String
resolve_admin_password none vault = vault
resolve_admin_password (some override) vault = if str_eq override "" then vault else some override

module _ (env : Env) (password : String) where
  abbrev pub initial_admin : User
  initial_admin = record {
    id = env.uuid4 0;
    email = "admin@example.com";
    hashed_password = env.argon2 0 password;
    is_active = true;
    role = admin;
    created_at = env.now 0;
    deleted_at = none;
    original_email = none;
  }

  abbrev pub upgrade_0002 : List Op
  upgrade_0002 =
      create_table users_table
      ∷ create_index ix_users_email
      ∷ create_table casbin_rule_table
      ∷ create_table batches_table
      ∷ create_table predictions_table
      ∷ create_index ix_predictions_batch_id
      ∷ create_index ix_predictions_content_sha256
      ∷ create_table audit_log_table
      ∷ create_index ix_audit_actor_created
      ∷ create_index ix_audit_target
      ∷ insert_rules seed_policies
      ∷ insert_users (initial_admin ∷ [])
      ∷ []

abbrev pub downgrade_0002 : List Op
downgrade_0002 =
    drop_index "ix_audit_target"
    ∷ drop_index "ix_audit_actor_created"
    ∷ drop_table "audit_log"
    ∷ drop_index "ix_predictions_content_sha256"
    ∷ drop_index "ix_predictions_batch_id"
    ∷ drop_table "predictions"
    ∷ drop_table "batches"
    ∷ drop_table "casbin_rule"
    ∷ drop_index "ix_users_email"
    ∷ drop_table "users"
    ∷ []

abbrev pub deleted_at : Column
deleted_at = optional "deleted_at" timestamp

abbrev pub original_email : Column
original_email = optional "original_email" (varchar 320)

abbrev pub upgrade_0003 : List Op
upgrade_0003 = add_column "users" deleted_at ∷ []

abbrev pub downgrade_0003 : List Op
downgrade_0003 = drop_column "users" "deleted_at" ∷ []

abbrev pub upgrade_0004 : List Op
upgrade_0004 = add_column "users" original_email ∷ []

abbrev pub downgrade_0004 : List Op
downgrade_0004 = drop_column "users" "original_email" ∷ []

abbrev pub upgrade_0005 : List Op
upgrade_0005 = insert_rules upload_policies ∷ []

-- `v0 IN ('admin', 'reviewer')`
abbrev is_staff : CasbinRule → Bool
is_staff r = str_eq r.v0 "admin" || str_eq r.v0 "reviewer"

abbrev allows : String → String → CasbinRule → Bool
allows v1 v2 r = str_eq r.ptype "p" && (str_eq r.v1 v1 && str_eq r.v2 v2)

abbrev pub downgrade_0005 : List Op
downgrade_0005 = delete_rules (λ r. allows "/batches/upload" "POST" r && is_staff r) ∷ []

abbrev pub upgrade_0006 : List Op
upgrade_0006 = insert_rules overlay_policies ∷ []

abbrev pub downgrade_0006 : List Op
downgrade_0006 = delete_rules (λ r. allows "/predictions/*/overlay" "GET" r && is_staff r) ∷ []

abbrev pub upgrade_0007 : List Op
upgrade_0007 = insert_rules patch_policies ∷ []

abbrev pub downgrade_0007 : List Op
downgrade_0007 = delete_rules (λ r. allows "/predictions/*" "PATCH" r && str_eq r.v0 "admin") ∷ []

-- `alembic upgrade head` and `alembic downgrade base`; the first revision does nothing.
abbrev pub upgrade : Env → String → List Op
upgrade env password =
    upgrade_0002 env password
    ++ (upgrade_0003 ++ (upgrade_0004 ++ (upgrade_0005 ++ (upgrade_0006 ++ upgrade_0007))))

abbrev pub downgrade : List Op
downgrade =
    downgrade_0007
    ++ (downgrade_0006
        ++ (downgrade_0005 ++ (downgrade_0004 ++ (downgrade_0003 ++ downgrade_0002))))
