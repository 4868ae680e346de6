-- ===== src/Api/Admin/Guard.antt =====
-- api/admin.py: callers and `require_permission` under the policy of the migrations.
use dropsort.Prelude.{ℕ, String, ◌≡◌, ◌≢◌, refl, ap, ◌∙◌, Bool, false}
use dropsort.Domain.{Uuid, Role, admin, reviewer, auditor}
use dropsort.Db.{User}
use dropsort.Session.{Env}
use dropsort.Service.{World, Clear, Action}
use dropsort.Access.{
  Casbin, IsCasbin, migrated, Endpoint, list_users, invite_user, change_user_role, set_active,
  remove_user, permitted,
}
use dropsort.Access.Matrix.{permitted-granted, granted}
use dropsort.Api.{refused, Translation, endpoint}
use dropsort.Api.Admin.{
  list_users_endpoint, invite_user_endpoint, change_role_endpoint, set_user_active_endpoint,
  remove_user_endpoint,
}

module _ (casbin : Casbin) (h : IsCasbin casbin) (user : User) (w : World)
    (loaded : w.policy ≡ migrated) where
  pub endpoint-forbidden {ℓ} :
      {A : Type ℓ} (e : Endpoint) (status : ℕ) (errors : Translation) (call : Action A)
      → granted user.role e ≡ false
      → endpoint casbin e user status errors call w ≡ (refused 403 "Permission denied", w)
  unfolding endpoint
  endpoint-forbidden e status errors call closed =
      let off : permitted casbin w.policy user.role e ≡ false =
        ap (λ rules. permitted casbin rules user.role e) loaded
        ∙ (permitted-granted casbin h user.role e ∙ closed) in
      rw off refl

not_admin :
    (role : Role)
    → role ≢ admin
    → (granted role list_users ≡ false)
      × (granted role invite_user ≡ false)
      × (granted role change_user_role ≡ false)
      × (granted role set_active ≡ false)
      × (granted role remove_user ≡ false)
not_admin admin n = elim (n refl) [ ]
not_admin reviewer n = (refl, refl, refl, refl, refl)
not_admin auditor n = (refl, refl, refl, refl, refl)

module _ (env : Env) (clear : Clear) (casbin : Casbin) (user : User) (w : World) where
  -- Where the enforcer has loaded the migrated policy and Casbin behaves as documented, each of the
  -- five endpoints on users refuses a caller who is not an administrator, and changes nothing.
  pub admin_endpoints-refused :
      IsCasbin casbin
      → w.policy ≡ migrated
      → user.role ≢ admin
      → (email secret : String) (role : Role) (target : Uuid) (is_active : Bool)
      → (list_users_endpoint env clear casbin user w ≡ (refused 403 "Permission denied", w))
        × (invite_user_endpoint env clear casbin user email secret role w
            ≡ (refused 403 "Permission denied", w))
        × (change_role_endpoint env clear casbin user target role w
            ≡ (refused 403 "Permission denied", w))
        × (set_user_active_endpoint env clear casbin user target is_active w
            ≡ (refused 403 "Permission denied", w))
        × (remove_user_endpoint env clear casbin user target w
            ≡ (refused 403 "Permission denied", w))
  admin_endpoints-refused h loaded n email secret role target is_active =
      let (a, b, c, d, e) = not_admin user.role n in
      (
        endpoint-forbidden casbin h user w loaded list_users _ _ _ a,
        endpoint-forbidden casbin h user w loaded invite_user _ _ _ b,
        endpoint-forbidden casbin h user w loaded change_user_role _ _ _ c,
        endpoint-forbidden casbin h user w loaded set_active _ _ _ d,
        endpoint-forbidden casbin h user w loaded remove_user _ _ _ e,
      )
