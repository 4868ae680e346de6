-- ===== src/Services/UserService/Inviting.antt =====
-- An invitation, whole.
use dropsort.Prelude.{
  ◌+◌, String, true, false, ◌≡◌, refl, none, [], ◌∷◌, ◌++◌, arith, find?, Option-cases, inl, inr,
}
use dropsort.Domain.{Uuid, Role, UserOut}
use dropsort.Db.{Db, User, AuditLog, user_fits}
use dropsort.Exec.{ok}
use dropsort.Session.{Env, Session}
use dropsort.Service.{World}
use dropsort.Service.Success.{Outcome, begin-Outcome}
use dropsort.Repositories.Users.{user_out, has_email, create, new_user, user_clash}
use dropsort.Repositories.Audit.{append, audit_row, audit_clash}
use dropsort.Services.UserService.{invite, invite_tx, invite_entry}

-- A new row with the invited address, which no row had, and one audit row of the actor.
pub record Invited (email : String) (role : Role) (actor_id : Uuid) (db : Db) (out : UserOut)
    (db' : Db) : Type 0 where
  pub user : User
  pub entry : AuditLog
  pub fit : user_fits user ≡ true
  pub free : user_clash user db ≡ false
  pub address : user.email ≡ email
  pub as_asked : user.role ≡ role
  pub active : user.is_active ≡ true
  pub present : user.deleted_at ≡ none
  pub by : entry.actor_id ≡ actor_id
  pub logged : audit_clash entry (record db { users = db.users ++ user ∷ [] }) ≡ false
  pub out_lem : out ≡ user_out user
  pub db_lem :
      db' ≡ record db { users = db.users ++ user ∷ []; audit_log = db.audit_log ++ entry ∷ [] }

module _ (env : Env) (email hash : String) (role : Role) (actor_id : Uuid) where
  invite_tx-Invited :
      (s t : Session) (out : UserOut)
      → invite_tx env email hash role actor_id s ≡ (ok out, t)
      → Invited email role actor_id s.db out t.db
  unfolding create append
  invite_tx-Invited s t out h = elim (Option-cases (find? (has_email email) s.db.users)) [
    | inr (u, e) ↦ ground arith
    | inl e ↦ record {
      user = new_user env email hash role s.draws;
      entry = audit_row env (invite_entry actor_id (env.uuid4 s.draws) email role) (s.draws + 1);
      fit = ground arith;
      free = ground arith;
      address = refl;
      as_asked = refl;
      active = refl;
      present = refl;
      by = refl;
      logged = ground arith;
      out_lem = ground arith;
      db_lem = ground arith;
    }
  ]

-- An invitation raises and changes no table, or adds one account.
pub invite-Outcome :
    (env : Env) (email raw_secret : String) (role : Role) (actor_id : Uuid) (w : World)
    → Outcome w.db
        (λ out db'. Invited email role actor_id w.db out db')
        (invite env email raw_secret role actor_id w)
unfolding invite
invite-Outcome env email raw_secret role actor_id w =
    let hash = env.argon2 w.draws raw_secret in
    begin-Outcome (Invited email role actor_id w.db) (invite_tx env email hash role actor_id)
      (record w { draws = w.draws + 1 })
      λ out t h. invite_tx-Invited env email hash role actor_id _ t out h
