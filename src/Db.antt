-- ===== src/Db.antt =====
-- The tables of app/db/models.py as lists of rows, with the constraints that the columns declare.
-- The columns `is_superuser` and `is_verified`, which no code reads, are left out. A row is appended by an insert and replaced in place by an update.
pub mod Tables
pub mod Order
pub mod Distinct
pub mod Invariant
use Prim.Native.String.{count}
use dropsort.Prelude.Paths.{contains}
use dropsort.Prelude.{ℕ, String, Bool, true, not, ◌&&◌, Option, none, some, List, leb}
use dropsort.Prelude.Float.{Float}
use dropsort.Domain.{Uuid, Time, Role, BatchState, TopKItem, Metadata}

pub record User : Type 0 where
  pub id : Uuid
  pub email : String
  pub hashed_password : String
  pub is_active : Bool
  pub role : Role
  pub created_at : Time
  pub deleted_at : Option Time
  pub original_email : Option String

pub record CasbinRule : Type 0 where
  pub ptype : String
  pub v0 : String
  pub v1 : String
  pub v2 : String

pub record Batch : Type 0 where
  pub id : Uuid
  pub external_id : Option String
  pub state : BatchState
  pub created_at : Time
  pub updated_at : Time

pub record Prediction : Type 0 where
  pub id : Uuid
  pub batch_id : Uuid
  pub filename : String
  pub content_sha256 : String
  pub minio_input_key : String
  pub minio_overlay_key : Option String
  pub label : String
  pub top1_confidence : Float
  pub top5_json : List TopKItem
  pub relabel_label : Option String
  pub relabel_actor_id : Option Uuid
  pub relabel_at : Option Time
  pub created_at : Time

pub record AuditLog : Type 0 where
  pub id : Uuid
  pub actor_id : Uuid
  pub action : String
  pub target_type : String
  pub target_id : String
  pub created_at : Time
  pub metadata_jsonb : Option Metadata

pub record Db : Type 0 where
  pub users : List User
  pub casbin_rules : List CasbinRule
  pub batches : List Batch
  pub predictions : List Prediction
  pub audit_log : List AuditLog

-- A `VARCHAR(n)` column refuses a longer text, and PostgreSQL refuses a text with the character NUL.
abbrev pub fits : ℕ → String → Bool
fits n s = leb (count s) n && not (contains 0 s)

abbrev pub fits? : ℕ → Option String → Bool
fits? n none = true
fits? n (some s) = fits n s

unfoldable pub user_fits : User → Bool
user_fits u = fits 320 u.email && fits 1024 u.hashed_password && fits? 320 u.original_email

unfoldable pub batch_fits : Batch → Bool
batch_fits b = fits? 256 b.external_id

unfoldable pub prediction_fits : Prediction → Bool
prediction_fits p =
    fits 512 p.filename
    && fits 64 p.content_sha256
    && fits 1024 p.minio_input_key
    && fits? 1024 p.minio_overlay_key
    && fits 64 p.label
    && fits? 64 p.relabel_label

unfoldable pub audit_fits : AuditLog → Bool
audit_fits a = fits 64 a.action && fits 32 a.target_type && fits 64 a.target_id
