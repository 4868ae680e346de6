-- ===== src/Api/Admin.antt =====
-- api/admin.py
pub mod Guard
pub mod Obstacles
use dropsort.Prelude.{⊤, String, Bool, ℕ, Option, none, some, List}
use dropsort.Domain.{Uuid, Role, UserOut}
use dropsort.Db.{User}
use dropsort.Exec.{
  Exc, user_not_found, user_already_exists, cannot_act_on_self, cannot_manage_administrator,
  user_removed,
}
use dropsort.Session.{Env}
use dropsort.Service.{World, Clear, query}
use dropsort.Access.{Casbin, list_users, invite_user, change_user_role, set_active, remove_user}
use dropsort.Api.{Reply, Translation, endpoint}
use dropsort.Repositories.Users
use dropsort.Services.UserService.{change_role, set_user_active, remove_user_account, invite}

-- The clauses that the three endpoints on an account share, with the sentence for one's own.
abbrev pub account_errors : String → Translation
account_errors own (user_not_found _) = some (404, "User not found")
account_errors own (user_removed _) = some (404, "User not found")
account_errors own cannot_act_on_self = some (400, own)
account_errors own cannot_manage_administrator =
    some (403, "Administrator accounts cannot be managed here")
account_errors own _ = none

abbrev pub invite_errors : Translation
invite_errors (user_already_exists _) = some (409, "Email already registered")
invite_errors _ = none

module _ (env : Env) (clear : Clear) (casbin : Casbin) (user : User) where
  abbrev pub list_users_endpoint : World → Reply (List UserOut) × World
  list_users_endpoint = endpoint casbin list_users user 200 (λ _. none) (query Users.list_all)

  abbrev pub invite_user_endpoint : String → String → Role → World → Reply UserOut × World
  invite_user_endpoint email initial_secret role =
      endpoint casbin invite_user user 201 invite_errors
        (invite env email initial_secret role user.id)

  abbrev pub change_role_endpoint : Uuid → Role → World → Reply UserOut × World
  change_role_endpoint target role =
      endpoint casbin change_user_role user 200
        (account_errors "You cannot change your own access level here")
        (change_role env clear target role user.id)

  abbrev pub set_user_active_endpoint : Uuid → Bool → World → Reply UserOut × World
  set_user_active_endpoint target is_active =
      endpoint casbin set_active user 200
        (account_errors "You cannot change your own access status here")
        (set_user_active env clear target is_active user.id)

  abbrev pub remove_user_endpoint : Uuid → World → Reply ⊤ × World
  remove_user_endpoint target =
      endpoint casbin remove_user user 204
        (account_errors "You cannot remove your own account here")
        (remove_user_account env clear target user.id)
