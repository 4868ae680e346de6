-- ===== src/Api/Admin/Obstacles.antt =====
-- api/admin.py: accounts that a caller cannot manage.
use dropsort.Prelude.{ℕ, String, ◌≡◌, ◌≢◌, refl, Bool, true, none, some, arith}
use dropsort.Domain.{Uuid, Time, Role, admin}
use dropsort.Db.{User, Db}
use dropsort.Db.Tables.{key-row}
use dropsort.Exec.{
  Exc, err, user_not_found, user_removed, cannot_act_on_self, cannot_manage_administrator,
}
use dropsort.Session.{Env, Session}
use dropsort.Service.{World, Action, Clear, begin, session}
use dropsort.Repositories.Users.{user_row, user_key}
use dropsort.Services.UserService.{
  manageable, require_manageable_target, change_role, set_user_active, remove_user_account,
}
use dropsort.Access.{Casbin, Endpoint, change_user_role, set_active, remove_user, permitted}
use dropsort.Api.{refused, endpoint}
use dropsort.Api.Admin.{
  account_errors, change_role_endpoint, set_user_active_endpoint, remove_user_endpoint,
}

-- Why an account cannot be managed: it is missing, it was removed, it is the caller's own, or it is
-- an administrator's.
pub data Obstacle (target actor_id : Uuid) (db : Db) : Type 0 where
  missing : user_row target db ≡ none → Obstacle target actor_id db
  removed :
      (u : User) (t : Time)
      → user_row target db ≡ some u
      → u.deleted_at ≡ some t
      → Obstacle target actor_id db
  own_account :
      (u : User)
      → user_row target db ≡ some u
      → u.deleted_at ≡ none
      → target ≡ actor_id
      → Obstacle target actor_id db
  administrator :
      (u : User)
      → user_row target db ≡ some u
      → u.deleted_at ≡ none
      → target ≢ actor_id
      → u.role ≡ admin
      → Obstacle target actor_id db

module _ {target actor_id : Uuid} {db : Db} where
  -- The answer, with the sentence of the endpoint for one's own account.
  abbrev pub answer_to : String → Obstacle target actor_id db → ℕ × String
  answer_to own (missing e) = (404, "User not found")
  answer_to own (removed u t e gone) = (404, "User not found")
  answer_to own (own_account u e here same) = (400, own)
  answer_to own (administrator u e here other role) =
      (403, "Administrator accounts cannot be managed here")

  -- What is raised.
  abbrev exception : Obstacle target actor_id db → Exc
  exception (missing e) = user_not_found target
  exception (removed u t e gone) = user_removed target
  exception (own_account u e here same) = cannot_act_on_self
  exception (administrator u e here other role) = cannot_manage_administrator

  manageable-raises :
      (o : Obstacle target actor_id db) (s : Session)
      → s.db ≡ db
      → manageable target actor_id s ≡ (err (exception o), s)
  unfolding require_manageable_target
  manageable-raises (missing e) s d = ground arith
  manageable-raises (removed u t e gone) s d = ground (arith, key-row user_key target u db.users e)
  manageable-raises (own_account u e here same) s d =
      ground (arith, key-row user_key target u db.users e)
  manageable-raises (administrator u e here other role) s d =
      ground (arith, key-row user_key target u db.users e)

module _ (env : Env) (clear : Clear) (target actor_id : Uuid) (w : World)
    (o : Obstacle target actor_id w.db) where
  change_role-raises :
      (role : Role) → change_role env clear target role actor_id w ≡ (err (exception o), w)
  unfolding change_role begin
  change_role-raises role = rw (manageable-raises o (session w) refl) refl

  set_user_active-raises :
      (b : Bool) → set_user_active env clear target b actor_id w ≡ (err (exception o), w)
  unfolding set_user_active begin
  set_user_active-raises b = rw (manageable-raises o (session w) refl) refl

  remove_user_account-raises :
      remove_user_account env clear target actor_id w ≡ (err (exception o), w)
  unfolding remove_user_account begin
  remove_user_account-raises = rw (manageable-raises o (session w) refl) refl

module _ (casbin : Casbin) (user : User) (target : Uuid) (w : World) where
  endpoint-answers {ℓ} :
      {A : Type ℓ} (o : Obstacle target user.id w.db) (e : Endpoint) (status : ℕ) (own : String)
      (call : Action A)
      → permitted casbin w.policy user.role e ≡ true
      → call w ≡ (err (exception o), w)
      → endpoint casbin e user status (account_errors own) call w
        ≡ (refused (answer_to own o).0 (answer_to own o).1, w)
  unfolding endpoint
  endpoint-answers (missing e) _ status own call may h = rw (may, h) refl
  endpoint-answers (removed u t e gone) _ status own call may h = rw (may, h) refl
  endpoint-answers (own_account u e here same) _ status own call may h = rw (may, h) refl
  endpoint-answers (administrator u e here other role) _ status own call may h = rw (may, h) refl

  -- For a caller who is permitted, each of the three endpoints on an account answers 404 where the
  -- account is missing or removed, else 400 with its own sentence where it is the caller's, and else
  -- 403 where it is an administrator's, and leaves the whole state.
  pub obstacles-refused :
      (env : Env) (clear : Clear) (o : Obstacle target user.id w.db) (role : Role)
      (is_active : Bool)
      → permitted casbin w.policy user.role change_user_role ≡ true
      → permitted casbin w.policy user.role set_active ≡ true
      → permitted casbin w.policy user.role remove_user ≡ true
      → (let (status, detail) = answer_to "You cannot change your own access level here" o in
          change_role_endpoint env clear casbin user target role w ≡ (refused status detail, w))
        × (let (status, detail) = answer_to "You cannot change your own access status here" o in
            set_user_active_endpoint env clear casbin user target is_active w
            ≡ (refused status detail, w))
        × (let (status, detail) = answer_to "You cannot remove your own account here" o in
            remove_user_endpoint env clear casbin user target w ≡ (refused status detail, w))
  obstacles-refused env clear o role is_active may_role may_active may_remove = (
    endpoint-answers o _ _ _ _ may_role (change_role-raises env clear target user.id w o role),
    endpoint-answers o _ _ _ _ may_active
        (set_user_active-raises env clear target user.id w o is_active),
    endpoint-answers o _ _ _ _ may_remove (remove_user_account-raises env clear target user.id w o),
  )
