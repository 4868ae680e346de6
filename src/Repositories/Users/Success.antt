-- ===== src/Repositories/Users/Success.antt =====
-- What the statements on `users` did when they returned a row.

use dropsort.Prelude.{
  String, Bool, true, false, ◌≡◌, some, [], ◌∷◌, ◌++◌, arith, Option-cases, inl, inr,
}
use dropsort.Domain.{Uuid, Role, UserOut}
use dropsort.Db.{User, user_fits}
use dropsort.Db.Tables.{replace}
use dropsort.Exec.{ok}
use dropsort.Session.{Env, Session}
use dropsort.Repositories.Users.{
  user_out, user_key, user_row, email_taken, user_clash, set_role, set_is_active, soft_delete,
  removed_row, create, new_user,
}

-- The row of `target` was `old`, and is `new`.
pub record Replaced (target : Uuid) (new : User → User) (s t : Session) (out : UserOut)
    : Type 0 where
  pub old : User
  pub found : user_row target s.db ≡ some old
  pub fit : user_fits (new old) ≡ true
  pub free : email_taken (new old) s.db ≡ false
  pub out_lem : out ≡ user_out (new old)
  pub db_lem : t.db ≡ record s.db { users = replace user_key (new old) s.db.users }

pub set_role-eq-ok :
    (target : Uuid) (r : Role) (s t : Session) {o : UserOut}
    → set_role target r s ≡ (ok (some o), t)
    → Replaced target (λ u. record u { role = r }) s t o
unfolding set_role
set_role-eq-ok target r s t h = elim (Option-cases (user_row target s.db)) [
  | inl e ↦ ground arith
  | inr (old, e) ↦ record {
    old = old;
    found = e;
    fit = ground arith;
    free = ground arith;
    out_lem = ground arith;
    db_lem = ground arith;
  }
]

pub set_is_active-eq-ok :
    (target : Uuid) (is_active : Bool) (s t : Session) {o : UserOut}
    → set_is_active target is_active s ≡ (ok (some o), t)
    → Replaced target (λ u. record u { is_active = is_active }) s t o
unfolding set_is_active
set_is_active-eq-ok target is_active s t h = elim (Option-cases (user_row target s.db)) [
  | inl e ↦ ground arith
  | inr (old, e) ↦ record {
    old = old;
    found = e;
    fit = ground arith;
    free = ground arith;
    out_lem = ground arith;
    db_lem = ground arith;
  }
]

pub soft_delete-eq-ok :
    (env : Env) (target : Uuid) (s t : Session) {o : UserOut}
    → soft_delete env target s ≡ (ok (some o), t)
    → Replaced target (λ u. removed_row env u s.draws) s t o
unfolding soft_delete
soft_delete-eq-ok env target s t h = elim (Option-cases (user_row target s.db)) [
  | inl e ↦ ground arith
  | inr (old, e) ↦ record {
    old = old;
    found = e;
    fit = ground arith;
    free = ground arith;
    out_lem = ground arith;
    db_lem = ground arith;
  }
]

-- The row that an INSERT added.
pub create-eq-ok :
    (env : Env) (email hash : String) (r : Role) (s t : Session) (o : UserOut)
    → create env email hash r s ≡ (ok o, t)
    → let u = new_user env email hash r s.draws in
      (user_fits u ≡ true)
      × (user_clash u s.db ≡ false)
      × (o ≡ user_out u)
      × (t.db ≡ record s.db { users = s.db.users ++ u ∷ [] })
unfolding create
create-eq-ok env email hash r s t o h = ground arith
