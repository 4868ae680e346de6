-- ===== src/Domain.antt =====
-- The Pydantic models of app/domain: what the repositories return and the API answers.
use dropsort.Prelude.{ℕ, String, Bool, Option, List}
use dropsort.Prelude.Float.{Float}

-- A UUID is its 128-bit value, and a time is a number of ticks.
abbrev pub Uuid : Type 0
Uuid = ℕ

abbrev pub Time : Type 0
Time = ℕ

-- `Role` of domain/user.py
pub data Role : Type 0 where
  admin reviewer auditor : Role

-- `BatchState` of domain/batch.py
pub data BatchState : Type 0 where
  received processing complete failed : BatchState

-- The values of an audit entry's metadata.
pub data MetaValue : Type 0 where
  text : String → MetaValue
  number : Float → MetaValue
  flag : Bool → MetaValue

abbrev pub Metadata : Type 0
Metadata = List (String × MetaValue)

pub record UserOut : Type 0 where
  pub id : Uuid
  pub email : String
  pub role : Role
  pub is_active : Bool
  pub created_at : Time
  pub deleted_at : Option Time
  pub original_email : Option String

pub record BatchOut : Type 0 where
  pub id : Uuid
  pub external_id : Option String
  pub state : BatchState
  pub created_at : Time
  pub updated_at : Time
  pub prediction_count : ℕ

pub record TopKItem : Type 0 where
  pub label : String
  pub score : Float

pub record PredictionOut : Type 0 where
  pub id : Uuid
  pub batch_id : Uuid
  pub filename : String
  pub label : String
  pub top1_confidence : Float
  pub top5 : List TopKItem
  pub minio_overlay_key : Option String
  pub relabel_label : Option String
  pub relabel_actor_id : Option Uuid
  pub relabel_at : Option Time
  pub created_at : Time

pub record AuditEntryOut : Type 0 where
  pub id : Uuid
  pub actor_id : Uuid
  pub actor_email : Option String
  pub action : String
  pub target_type : String
  pub target_id : String
  pub target_label : Option String
  pub created_at : Time
  pub metadata_jsonb : Option Metadata
