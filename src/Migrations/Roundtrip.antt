-- ===== src/Migrations/Roundtrip.antt =====
-- alembic/versions: the downgrade takes back what the upgrade made.
use dropsort.Prelude.{String, ◌≡◌, refl, some, List, arith}
use dropsort.Db.{User, CasbinRule}
use dropsort.Session.{Env}
use dropsort.Migrations.Catalog.{Catalog, run}
use dropsort.Migrations.Revisions.{upgrade, downgrade}
use dropsort.Migrations.Apart.{
  IsApart, no_reference, tables_left, indexes_left, indexes_of_left, without_column_left,
}
use dropsort.Migrations.Models.{upgraded, run-upgrade}

module _ (env : Env) (password : String) (c : Catalog) (h : IsApart c) where
  run-downgrade :
      (rules : List CasbinRule) (users : List User)
      → run downgrade (record (upgraded env password c) { casbin_rules = rules; users = users })
        ≡ some c
  unfolding run
  run-downgrade rules users = ground (
    arith,
    without_column_left c h "users" refl "original_email",
    without_column_left c h "users" refl "deleted_at",
    indexes_left c h "ix_audit_target" refl,
    indexes_left c h "ix_audit_actor_created" refl,
    indexes_left c h "ix_predictions_content_sha256" refl,
    indexes_left c h "ix_predictions_batch_id" refl,
    indexes_left c h "ix_users_email" refl,
    tables_left c h "audit_log" refl,
    tables_left c h "predictions" refl,
    tables_left c h "batches" refl,
    tables_left c h "casbin_rule" refl,
    tables_left c h "users" refl,
    indexes_of_left c h "audit_log" refl,
    indexes_of_left c h "predictions" refl,
    indexes_of_left c h "batches" refl,
    indexes_of_left c h "casbin_rule" refl,
    indexes_of_left c h "users" refl,
    no_reference c h "audit_log" refl,
    no_reference c h "predictions" refl,
    no_reference c h "batches" refl,
    no_reference c h "casbin_rule" refl,
    no_reference c h "users" refl,
    h.no_rules,
    h.no_users,
  )

  -- On a catalog that has nothing of the program, `alembic upgrade head` and then `alembic downgrade
  -- base` is refused nowhere and leads back to it, whatever rows the tables of the accounts and of the
  -- policy have got in between.
  pub downgrade-upgrade :
      (rules : List CasbinRule) (users : List User)
      → (c' : Catalog) × (run (upgrade env password) c ≡ some c')
        × (run downgrade (record c' { casbin_rules = rules; users = users }) ≡ some c)
  downgrade-upgrade rules users =
      (upgraded env password c, run-upgrade env password c h, run-downgrade rules users)
