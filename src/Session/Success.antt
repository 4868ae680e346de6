-- ===== src/Session/Success.antt =====
-- A flushed statement that returned passed its checks and wrote.
use dropsort.Prelude.{◌≡◌, Bool, true, false, arith}
use dropsort.Db.{Db}
use dropsort.Exec.{ok}
use dropsort.Session.{Session, write}

pub write-eq-ok :
    (fit : Bool) (clash : Db → Bool) (f : Db → Db) (s t : Session)
    → write fit clash f s ≡ (ok tt, t)
    → (fit ≡ true) × (clash s.db ≡ false) × (t ≡ record s { db = f s.db })
write-eq-ok fit clash f s t h = ground arith
