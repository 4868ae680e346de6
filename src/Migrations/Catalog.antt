-- ===== src/Migrations/Catalog.antt =====
-- The calls of alembic's `op` on a catalog, as PostgreSQL answers them: a name that is taken or missing
-- is refused, and so is dropping a table that another one refers to.
use dropsort.Prelude.{
  ℕ, String, Bool, false, not, ◌&&◌, Option, none, some, List, [], ◌∷◌, ◌++◌, map, any, select,
  str_eq, if◌then◌else◌,
}
use dropsort.Db.{User, CasbinRule}

pub data ColumnType : Type 0 where
  uuid : ColumnType
  varchar : ℕ → ColumnType
  boolean : ColumnType
  integer : ColumnType
  float : ColumnType
  timestamp : ColumnType
  jsonb : ColumnType

-- `references` names the table of a foreign key to its column `id`.
pub record Column : Type 0 where
  pub name : String
  pub type : ColumnType
  pub nullable : Bool
  pub unique : Bool
  pub primary_key : Bool
  pub references : Option String
  pub server_default : Option String

pub record Table : Type 0 where
  pub name : String
  pub columns : List Column
  pub checks : List String

pub record Index : Type 0 where
  pub name : String
  pub table : String
  pub columns : List String
  pub unique : Bool

-- The tables and indexes in no order, and the rows of the two tables that the revisions fill.
pub record Catalog : Type 0 where
  pub tables : List Table
  pub indexes : List Index
  pub casbin_rules : List CasbinRule
  pub users : List User

pub data Op : Type 0 where
  create_table : Table → Op
  drop_table : String → Op
  create_index : Index → Op
  drop_index : String → Op
  add_column : String → Column → Op
  drop_column : String → String → Op
  insert_rules : List CasbinRule → Op
  delete_rules : (CasbinRule → Bool) → Op
  insert_users : List User → Op

abbrev pub is_named : String → Table → Bool
is_named name t = str_eq t.name name

abbrev pub is_index : String → Index → Bool
is_index name i = str_eq i.name name

abbrev pub has_table : String → Catalog → Bool
has_table name c = any (is_named name) c.tables

abbrev pub refers : String → Column → Bool
refers name column = elim column.references [ none ↦ false | some table ↦ str_eq table name ]

abbrev pub has_column : String → String → Catalog → Bool
has_column table column c =
    any (λ (t : Table). is_named table t && any (λ (k : Column). str_eq k.name column) t.columns)
      c.tables

-- Does a table refer to another one?
abbrev pub refers_to : String → Table → Bool
refers_to name t = any (refers name) t.columns

abbrev granted : Bool → Catalog → Option Catalog
granted test c = if test then some c else none

-- The rows go with their table.
abbrev without_rows : String → Catalog → Catalog
without_rows name c = record c {
  casbin_rules = if str_eq name "casbin_rule" then [] else c.casbin_rules;
  users = if str_eq name "users" then [] else c.users;
}

abbrev pub with_column : String → Column → Table → Table
with_column table column t =
    if str_eq t.name table then record t { columns = t.columns ++ column ∷ [] } else t

abbrev pub without_column : String → String → Table → Table
without_column table column t =
    if str_eq t.name table
    then record t { columns = select (λ (k : Column). not (str_eq k.name column)) t.columns }
    else t

abbrev pub perform : Op → Catalog → Option Catalog
perform (create_table t) c = granted (not (has_table t.name c)) (record c { tables = t ∷ c.tables })
perform (drop_table name) c =
    let left = select (λ (t : Table). not (is_named name t)) c.tables in
    granted (has_table name c && not (any (refers_to name) left)) (record (without_rows name c) {
      tables = left;
      indexes = select (λ (i : Index). not (str_eq i.table name)) c.indexes;
    })
perform (create_index i) c =
    granted (has_table i.table c && not (any (is_index i.name) c.indexes))
      (record c { indexes = i ∷ c.indexes })
perform (drop_index name) c =
    granted (any (is_index name) c.indexes)
      (record c { indexes = select (λ (i : Index). not (is_index name i)) c.indexes })
perform (add_column table column) c =
    granted (has_table table c && not (has_column table column.name c))
      (record c { tables = map (with_column table column) c.tables })
perform (drop_column table column) c =
    granted (has_column table column c)
      (record c { tables = map (without_column table column) c.tables })
perform (insert_rules rows) c =
    granted (has_table "casbin_rule" c) (record c { casbin_rules = c.casbin_rules ++ rows })
perform (delete_rules test) c =
    granted (has_table "casbin_rule" c)
      (record c { casbin_rules = select (λ (r : CasbinRule). not (test r)) c.casbin_rules })
perform (insert_users rows) c = granted (has_table "users" c) (record c { users = c.users ++ rows })

-- One call after the other; the first that is refused ends the run.
unfoldable pub run : List Op → Catalog → Option Catalog
run [] c = some c
run (o ∷ ops) c = elim (perform o c) [ none ↦ none | some c' ↦ run ops c' ]
