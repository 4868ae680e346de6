-- ===== src/Repositories/Audit/Success.antt =====
-- The row that `append` added.
use dropsort.Prelude.{◌≡◌, true, false, [], ◌∷◌, ◌++◌, arith}
use dropsort.Domain.{AuditEntryOut}
use dropsort.Db.{audit_fits}
use dropsort.Exec.{ok}
use dropsort.Session.{Env, Session}
use dropsort.Repositories.Audit.{Entry, append, audit_row, audit_clash}

pub append-eq-ok :
    (env : Env) (e : Entry) (s t : Session) (o : AuditEntryOut)
    → append env e s ≡ (ok o, t)
    → let a = audit_row env e s.draws in
      (audit_fits a ≡ true)
      × (audit_clash a s.db ≡ false)
      × (t.db ≡ record s.db { audit_log = s.db.audit_log ++ a ∷ [] })
unfolding append
append-eq-ok env e s t o h = ground arith
