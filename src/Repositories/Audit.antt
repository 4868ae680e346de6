-- ===== src/Repositories/Audit.antt =====
-- repositories/audit_repository.py
pub mod Success
use dropsort.Prelude.{⊤, ℕ, String, Bool, not, Option, none, some, List, [], ◌∷◌, ◌++◌, map, ◌||◌}
use dropsort.Domain.{Uuid, Metadata, AuditEntryOut}
use dropsort.Db.{User, AuditLog, Db, audit_fits}
use dropsort.Db.Tables.{has}
use dropsort.Db.Order.{newest_first, page}
use dropsort.Exec.{pure, ◌>>=◌, ◌>>◌}
use dropsort.Session.{Env, Tx, gets, draw, write}

abbrev pub audit_out : AuditLog → AuditEntryOut
audit_out a = record {
  id = a.id;
  actor_id = a.actor_id;
  actor_email = none;
  action = a.action;
  target_type = a.target_type;
  target_id = a.target_id;
  target_label = none;
  created_at = a.created_at;
  metadata_jsonb = a.metadata_jsonb;
}

-- The keyword arguments of `append`.
pub record Entry : Type 0 where
  pub actor_id : Uuid
  pub action : String
  pub target_type : String
  pub target_id : String
  pub metadata : Metadata

-- The primary key, and the foreign key to the actor.
abbrev pub audit_clash : AuditLog → Db → Bool
audit_clash a db =
    has (λ (b : AuditLog). b.id) a.id db.audit_log
    || not (has (λ (u : User). u.id) a.actor_id db.users)

module _ (env : Env) where
  abbrev pub audit_row : Entry → ℕ → AuditLog
  audit_row e n = record {
    id = env.uuid4 n;
    actor_id = e.actor_id;
    action = e.action;
    target_type = e.target_type;
    target_id = e.target_id;
    created_at = env.now n;
    metadata_jsonb = some e.metadata;
  }

  abbrev pub insert_audit : AuditLog → Tx ⊤
  insert_audit a =
      write (audit_fits a) (audit_clash a) (λ db. record db { audit_log = db.audit_log ++ a ∷ [] })

  unfoldable pub append : Entry → Tx AuditEntryOut
  append e = do n ← draw; insert_audit (audit_row e n); pure (audit_out (audit_row e n))

unfoldable pub list_paginated : ℕ → ℕ → Tx (List AuditEntryOut)
unfolding newest_first
list_paginated offset limit = gets (λ db.
    map audit_out (page offset limit (newest_first (λ (a : AuditLog). a.created_at) db.audit_log)))
