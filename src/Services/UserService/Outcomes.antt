-- ===== src/Services/UserService/Outcomes.antt =====
-- services/user_service.py: the outcome of the operations on an account.
use dropsort.Prelude.{⊤, Bool, refl, arith}
use dropsort.Domain.{Uuid, Role, UserOut}
use dropsort.Db.{Db}
use dropsort.Session.{Env}
use dropsort.Service.{World, Clear, begin, clear_cache}
use dropsort.Service.Success.{Outcome, begin-Outcome, continue-Outcome}
use dropsort.Repositories.Users.{removed_row}
use dropsort.Repositories.Users.Success.{set_role-eq-ok, set_is_active-eq-ok, soft_delete-eq-ok}
use dropsort.Services.UserService.{
  change_role, change_role_tx, set_user_active, set_user_active_tx, remove_user_account,
  remove_user_tx,
}
use dropsort.Services.UserService.Managed.{Changed, managed-Changed}

module _ (env : Env) (clear : Clear) (target actor_id : Uuid) (w : World) where
  change_role_tx-Outcome :
      (r : Role)
      → Outcome w.db
          (λ out db'. Changed target actor_id (λ u. record u { role = r }) w.db db' out)
          (begin (change_role_tx env clear target r actor_id) w)
  change_role_tx-Outcome r =
      begin-Outcome _ (change_role_tx env clear target r actor_id) w λ out t h.
        managed-Changed target actor_id env (λ u. record u { role = r }) _ _ _ t out
          (λ o t' e. set_role-eq-ok target r _ t' e) (λ _. refl) (λ _. refl) h

  -- A role change raises and changes no table, or gives the target the new role.
  pub change_role-Outcome :
      (r : Role)
      → Outcome w.db
          (λ out db'. Changed target actor_id (λ u. record u { role = r }) w.db db' out)
          (change_role env clear target r actor_id w)
  unfolding change_role
  change_role-Outcome r = ground (arith, change_role_tx-Outcome r)

  set_user_active_tx-Outcome :
      (b : Bool)
      → Outcome w.db
          (λ out db'. Changed target actor_id (λ u. record u { is_active = b }) w.db db' out)
          (begin (set_user_active_tx env clear target b actor_id) w)
  set_user_active_tx-Outcome b =
      begin-Outcome _ (set_user_active_tx env clear target b actor_id) w λ out t h.
        managed-Changed target actor_id env (λ u. record u { is_active = b }) _ _ _ t out
          (λ o t' e. set_is_active-eq-ok target b _ t' e) (λ _. refl) (λ _. refl) h

  -- A deactivation or reactivation raises and changes no table, or sets the target's flag.
  pub set_user_active-Outcome :
      (b : Bool)
      → Outcome w.db
          (λ out db'. Changed target actor_id (λ u. record u { is_active = b }) w.db db' out)
          (set_user_active env clear target b actor_id w)
  unfolding set_user_active
  set_user_active-Outcome b = ground (arith, set_user_active_tx-Outcome b)

  remove_user_tx-Outcome :
      Outcome w.db
        (λ out db'. Changed target actor_id (λ u. removed_row env u w.draws) w.db db' out)
        (begin (remove_user_tx env clear target actor_id) w)
  remove_user_tx-Outcome = begin-Outcome _ (remove_user_tx env clear target actor_id) w λ out t h.
      managed-Changed target actor_id env (λ u. removed_row env u w.draws) _ _ _ t out
        (λ o t' e. soft_delete-eq-ok env target _ t' e) (λ _. refl) (λ _. refl) h

  abbrev Removed : ⊤ → Db → Type 0
  Removed _ db' =
      (out : UserOut) × Changed target actor_id (λ u. removed_row env u w.draws) w.db db' out

  -- A removal raises and changes no table, or makes the target's row a removed one.
  pub remove_user_account-Outcome :
      Outcome w.db
        (λ _ db'.
          (out : UserOut) × Changed target actor_id (λ u. removed_row env u w.draws) w.db db' out)
        (remove_user_account env clear target actor_id w)
  unfolding remove_user_account
  remove_user_account-Outcome =
      let (r, w') = begin (remove_user_tx env clear target actor_id) w in
      continue-Outcome w.db _ Removed r w' (λ _. clear_cache clear "me") remove_user_tx-Outcome
        (λ out w'' h. (out, h))
