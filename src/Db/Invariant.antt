-- ===== src/Db/Invariant.antt =====
-- What the schema of app/db/models.py promises of the tables at any time: keys and unique columns
-- name one row, foreign keys lead to a row, and a removed account is not active.
pub mod Users
pub mod Log
pub mod Batches
pub mod Predictions
use dropsort.Prelude.{
  ℕ, String, ◌≡◌, refl, Bool, true, false, not, ◌&&◌, ◌||◌, Option, none, some, List, str_eq,
  is_some, all, eq_iff, arith, Bool-cases, inl, inr,
}
use dropsort.Domain.{Uuid}
use dropsort.Db.{User, Batch, Prediction, AuditLog, Db}
use dropsort.Db.Tables.{has, IsKeyed}
use dropsort.Db.Distinct.{Distinct}

abbrev pub user_id : User → Uuid
user_id u = u.id

abbrev pub batch_id : Batch → Uuid
batch_id b = b.id

abbrev pub prediction_id : Prediction → Uuid
prediction_id p = p.id

abbrev pub audit_id : AuditLog → Uuid
audit_id a = a.id

abbrev pub same_email : User → User → Bool
same_email u v = str_eq v.email u.email

-- Two NULLs do not agree.
abbrev pub same_text : Option String → Option String → Bool
same_text (some s) (some t) = str_eq t s
same_text _ _ = false

abbrev pub same_external : Batch → Batch → Bool
same_external b c = same_text b.external_id c.external_id

abbrev pub same_sha : Prediction → Prediction → Bool
same_sha p q = str_eq q.content_sha256 p.content_sha256

-- A removed account is not active.
abbrev pub is_retired : User → Bool
is_retired u = not (is_some u.deleted_at) || not u.is_active

abbrev pub in_batch : List Batch → Prediction → Bool
in_batch batches p = has batch_id p.batch_id batches

abbrev pub known_actor : List User → Option Uuid → Bool
known_actor users none = true
known_actor users (some a) = has user_id a users

abbrev pub by_known : List User → AuditLog → Bool
by_known users a = has user_id a.actor_id users

abbrev pub relabelled_by_known : List User → Prediction → Bool
relabelled_by_known users p = known_actor users p.relabel_actor_id

pub record UsersValid (users : List User) : Type 0 where
  pub keyed : IsKeyed user_id users
  pub emails : Distinct same_email users
  pub retired : all is_retired users ≡ true

pub record BatchesValid (batches : List Batch) : Type 0 where
  pub keyed : IsKeyed batch_id batches
  pub externals : Distinct same_external batches

pub record PredictionsValid (users : List User) (batches : List Batch)
    (predictions : List Prediction) : Type 0 where
  pub keyed : IsKeyed prediction_id predictions
  pub hashes : Distinct same_sha predictions
  pub in_batches : all (in_batch batches) predictions ≡ true
  pub actors : all (relabelled_by_known users) predictions ≡ true

pub record AuditValid (users : List User) (log : List AuditLog) : Type 0 where
  pub keyed : IsKeyed audit_id log
  pub actors : all (by_known users) log ≡ true

pub record IsValid (db : Db) : Type 0 where
  pub users : UsersValid db.users
  pub batches : BatchesValid db.batches
  pub predictions : PredictionsValid db.users db.batches db.predictions
  pub audit : AuditValid db.users db.audit_log

pub str_eq_symm : (s t : String) → str_eq s t ≡ str_eq t s
str_eq_symm s t = ground (arith, eq_iff s t, eq_iff t s)

pub same_email_symm : (u v : User) → same_email u v ≡ same_email v u
same_email_symm u v = str_eq_symm v.email u.email

same_text_symm : (s t : Option String) → same_text s t ≡ same_text t s
same_text_symm none none = refl
same_text_symm none (some t) = refl
same_text_symm (some s) none = refl
same_text_symm (some s) (some t) = str_eq_symm t s

pub same_external_symm : (b c : Batch) → same_external b c ≡ same_external c b
same_external_symm b c = same_text_symm b.external_id c.external_id

pub same_sha_symm : (p q : Prediction) → same_sha p q ≡ same_sha q p
same_sha_symm p q = str_eq_symm q.content_sha256 p.content_sha256
