-- ===== src/System/Untouched.antt =====
-- Batches and predictions under the administrative requests of app/api/admin.py.
use dropsort.Prelude.{◌≡◌, refl, arith}
use dropsort.Domain.{Uuid}
use dropsort.Db.{Db}
use dropsort.Session.{Env}
use dropsort.Service.{World, Clear}
use dropsort.Service.Success.{Outcome-keeps}
use dropsort.Services.UserService.{change_role, set_user_active, remove_user_account, invite}
use dropsort.Services.UserService.Inviting.{invite-Outcome}
use dropsort.Services.UserService.Outcomes.{
  change_role-Outcome, set_user_active-Outcome, remove_user_account-Outcome,
}
use dropsort.Services.UserService.History.{
  Command, role_change, activation, removal, invitation, execute,
}

abbrev pub SameScans : Db → Db → Type 0
SameScans db db' = (db'.batches ≡ db.batches) × (db'.predictions ≡ db.predictions)

module _ (env : Env) (clear : Clear) (actor_id : Uuid) where
  -- Batches and predictions are as before.
  pub execute-SameScans :
      (c : Command) (w : World) → SameScans w.db (execute env clear actor_id c w).1.db
  unfolding execute
  execute-SameScans (role_change target r) w =
      let (x, w') = change_role env clear target r actor_id w in
      Outcome-keeps (SameScans w.db) w.db _
        (λ out db' c. (ground (arith, c.db_lem), ground (arith, c.db_lem))) (refl, refl) x w'
        (change_role-Outcome env clear target actor_id w r)
  execute-SameScans (activation target b) w =
      let (x, w') = set_user_active env clear target b actor_id w in
      Outcome-keeps (SameScans w.db) w.db _
        (λ out db' c. (ground (arith, c.db_lem), ground (arith, c.db_lem))) (refl, refl) x w'
        (set_user_active-Outcome env clear target actor_id w b)
  execute-SameScans (removal target) w =
      let (x, w') = remove_user_account env clear target actor_id w in
      Outcome-keeps (SameScans w.db) w.db _
        (λ _ db' c. (ground (arith, c.1.db_lem), ground (arith, c.1.db_lem))) (refl, refl) x w'
        (remove_user_account-Outcome env clear target actor_id w)
  execute-SameScans (invitation email secret r) w =
      let (x, w') = invite env email secret r actor_id w in
      Outcome-keeps (SameScans w.db) w.db _
        (λ out db' c. (ground (arith, c.db_lem), ground (arith, c.db_lem))) (refl, refl) x w'
        (invite-Outcome env email secret r actor_id w)
