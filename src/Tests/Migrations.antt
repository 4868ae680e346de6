-- ===== src/Tests/Migrations.antt =====
-- The revisions on a database that has only the table of alembic itself.
use dropsort.Prelude.{◌≡◌, refl, true, false, none, some, [], ◌∷◌, ◌++◌}
use dropsort.Access.{migrated}
use dropsort.Migrations.Catalog.{Catalog, Table, varchar, run}
use dropsort.Migrations.Revisions.{upgrade, downgrade, initial_admin, resolve_admin_password}
use dropsort.Migrations.Apart.{IsApart}
use dropsort.Migrations.Models.{
  shapes, base_user_columns, user_columns, casbin_rule_columns, batch_columns, prediction_columns,
  audit_log_columns, upgrade-models,
}
use dropsort.Migrations.Roundtrip.{downgrade-upgrade}
use dropsort.Tests.Fixture.{test_env, root, jane}

abbrev alembic_version : Table
alembic_version = record {
  name = "alembic_version";
  columns =
      record {
        name = "version_num";
        type = varchar 32;
        nullable = false;
        unique = false;
        primary_key = true;
        references = none;
        server_default = none;
      }
      ∷ [];
  checks = [];
}

abbrev bare : Catalog
bare = record { tables = alembic_version ∷ []; indexes = []; casbin_rules = []; users = [] }

bare-IsApart : IsApart bare
bare-IsApart = record { tables = refl; indexes = refl; no_rules = refl; no_users = refl }

upgrade-models_example :
    (c' : Catalog) × (run (upgrade test_env "secret") bare ≡ some c')
    × (shapes "users" c' ≡ some (base_user_columns ++ user_columns))
    × (shapes "casbin_rule" c' ≡ some casbin_rule_columns)
    × (shapes "batches" c' ≡ some batch_columns)
    × (shapes "predictions" c' ≡ some prediction_columns)
    × (shapes "audit_log" c' ≡ some audit_log_columns)
    × (c'.casbin_rules ≡ migrated)
    × (c'.users ≡ initial_admin test_env "secret" ∷ [])
upgrade-models_example = upgrade-models test_env "secret" bare bare-IsApart

downgrade-upgrade_example :
    (c' : Catalog) × (run (upgrade test_env "secret") bare ≡ some c')
    × (run downgrade (record c' { casbin_rules = migrated; users = root ∷ jane ∷ [] }) ≡ some bare)
downgrade-upgrade_example =
    downgrade-upgrade test_env "secret" bare bare-IsApart migrated (root ∷ jane ∷ [])

override_run : resolve_admin_password (some "") (some "from Vault") ≡ some "from Vault"
override_run = refl
