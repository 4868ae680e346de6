-- ===== src/Session.antt =====
-- A SQLAlchemy session inside `async with session.begin()`: statements that read and write the
-- tables, and may raise. `start` is what a rollback goes back to. What the database and the
-- runtime choose (random identifiers, the clock, salts) comes from an `Env`, one number of the
-- counter `draws` for each statement that asks for it.
pub mod Keeps
pub mod Success
use dropsort.Prelude.{⊤, ℕ, ◌+◌, String, Bool, if◌then◌else◌}
use dropsort.Exec.{Exc, integrity_error, data_error, Result, ok, err, Exec}
use dropsort.Domain.{Uuid, Time}
use dropsort.Db.{Db}

-- What PostgreSQL and Python's runtime supply: `gen_random_uuid()` and `uuid4()`, the clock,
-- `secrets.token_hex(32)` and the salted argon2 hash of passlib. `fails` says which calls of MinIO,
-- Redis and SFTP raise.
pub record Env : Type 0 where
  pub uuid4 : ℕ → Uuid
  pub now : ℕ → Time
  pub token_hex : ℕ → String
  pub argon2 : ℕ → String → String
  pub fails : ℕ → Bool

pub record Session : Type 0 where
  pub start : Db
  pub db : Db
  pub draws : ℕ

abbrev pub Tx {ℓ} : Type ℓ → Type ℓ
Tx A = Exec Session A

abbrev pub gets {ℓ} : {A : Type ℓ} → (Db → A) → Tx A
gets f s = (ok (f s.db), s)

-- The next number of the counter.
abbrev pub draw : Tx ℕ
draw s = (ok s.draws, record s { draws = s.draws + 1 })

-- An INSERT or UPDATE that is flushed: the widths of the columns are checked first, then the
-- constraints; a refused statement writes nothing.
abbrev pub write : Bool → (Db → Bool) → (Db → Db) → Tx ⊤
write fit clash f s =
    if fit
    then (if clash s.db then (err integrity_error, s) else (ok tt, record s { db = f s.db }))
    else (err data_error, s)

-- `await session.rollback()`
abbrev pub rollback : Tx ⊤
rollback s = (ok tt, record s { db = s.start })
