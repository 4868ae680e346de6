-- ===== src/Services/UserService.antt =====
-- services/user_service.py: every operation is one transaction with its audit row, and the cache
-- is cleared after the commit.
pub mod Outcomes
pub mod History
pub mod Validity
pub mod Inviting
pub mod Managed
use dropsort.Prelude.{
  ⊤, String, Bool, true, false, List, [], ◌∷◌, ◌==◌, if◌then◌else◌, uuid_str, is_some,
}
use dropsort.Domain.{Uuid, Metadata, Role, admin, reviewer, auditor, UserOut, text, flag}
use dropsort.Exec.{
  user_not_found, user_already_exists, cannot_act_on_self, cannot_manage_administrator,
  user_removed, pure, raise, or_raise, raise_if, Exec, ◌>>=◌, ◌>>◌,
}
use dropsort.Session.{Env, Tx}
use dropsort.Service.{Clear, Action, begin, clear_cache, load_policy, spin}
use dropsort.Repositories.Users
use dropsort.Repositories.Audit

abbrev pub role_name : Role → String
role_name admin = "admin"
role_name reviewer = "reviewer"
role_name auditor = "auditor"

abbrev pub is_admin : Role → Bool
is_admin admin = true
is_admin _ = false

-- `_require_manageable_target`
unfoldable pub require_manageable_target : UserOut → Uuid → Tx ⊤
require_manageable_target target actor_id =
    if is_some target.deleted_at
    then raise (user_removed target.id)
    else if target.id == actor_id
    then raise cannot_act_on_self
    else if is_admin target.role
    then raise cannot_manage_administrator
    else pure tt

-- The target of a role or lifecycle change, once it may be managed.
abbrev pub manageable : Uuid → Uuid → Tx UserOut
manageable target_user_id actor_id = do
  found ← Users.get_by_id target_user_id
  current ← or_raise (user_not_found target_user_id) found
  require_manageable_target current actor_id
  pure current

abbrev pub user_entry : Uuid → String → Uuid → Metadata → Audit.Entry
user_entry actor_id action target metadata = record {
  actor_id = actor_id;
  action = action;
  target_type = "user";
  target_id = uuid_str target;
  metadata = metadata;
}

module _ (env : Env) (clear : Clear) where
  abbrev pub change_role_tx : Uuid → Role → Uuid → Tx UserOut
  change_role_tx target new_role actor_id = do
    current ← manageable target actor_id
    found ← Users.set_role target new_role
    updated ← or_raise (user_not_found target) found
    Audit.append env (
        user_entry actor_id "role_changed" target
          (("from", text (role_name current.role)) ∷ ("to", text (role_name new_role)) ∷ []))
    pure updated

  unfoldable pub change_role : Uuid → Role → Uuid → Action UserOut
  change_role target new_role actor_id = do
    updated ← begin (change_role_tx target new_role actor_id)
    load_policy
    clear_cache clear "me"
    pure updated

  abbrev pub set_user_active_tx : Uuid → Bool → Uuid → Tx UserOut
  set_user_active_tx target is_active actor_id = do
    current ← manageable target actor_id
    found ← Users.set_is_active target is_active
    updated ← or_raise (user_not_found target) found
    Audit.append env (
        user_entry actor_id (if is_active then "user_reactivated" else "user_deactivated") target
          (("email", text current.email) ∷ ("is_active", flag is_active) ∷ []))
    pure updated

  unfoldable pub set_user_active : Uuid → Bool → Uuid → Action UserOut
  set_user_active target is_active actor_id = do
    updated ← begin (set_user_active_tx target is_active actor_id)
    clear_cache clear "me"
    pure updated

  abbrev pub remove_user_tx : Uuid → Uuid → Tx UserOut
  remove_user_tx target actor_id = do
    current ← manageable target actor_id
    found ← Users.soft_delete env target
    updated ← or_raise (user_not_found target) found
    Audit.append env
        (user_entry actor_id "user_deleted" target (("prior_email", text current.email) ∷ []))
    pure updated

  unfoldable pub remove_user_account : Uuid → Uuid → Action ⊤
  remove_user_account target actor_id = do
    begin (remove_user_tx target actor_id)
    clear_cache clear "me"

abbrev pub invite_entry : Uuid → Uuid → String → Role → Audit.Entry
invite_entry actor_id target email role =
    user_entry actor_id "user_invited" target
      (("email", text email) ∷ ("role", text (role_name role)) ∷ [])

module _ (env : Env) where
  abbrev pub invite_tx : String → String → Role → Uuid → Tx UserOut
  invite_tx email hashed role actor_id = do
    existing ← Users.get_by_email email
    raise_if (is_some existing) (user_already_exists email)
    user ← Users.create env email hashed role
    Audit.append env (invite_entry actor_id user.id email role)
    pure user

  unfoldable pub invite : String → String → Role → Uuid → Action UserOut
  invite email raw_secret role actor_id = do
    n ← spin
    begin (invite_tx email (env.argon2 n raw_secret) role actor_id)
