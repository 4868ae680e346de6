-- ===== src/Migrations.antt =====
-- alembic/versions: what each revision does to the catalog of the database and to the rows that it
-- seeds.
pub mod Catalog
pub mod Revisions
pub mod Apart
pub mod Models
pub mod Roundtrip
