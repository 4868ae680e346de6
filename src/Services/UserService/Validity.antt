-- ===== src/Services/UserService/Validity.antt =====
-- services/user_service.py: the promises of the schema under its operations.
use dropsort.Prelude.{String, true, ◌≡◌, refl, List, [], ◌∷◌, ◌++◌, arith}
use dropsort.Domain.{Uuid, Role, UserOut}
use dropsort.Db.{Db, User}
use dropsort.Db.Tables.{replace}
use dropsort.Db.Invariant.{IsValid, is_retired}
use dropsort.Db.Invariant.Users.{replace-UsersValid, append-UsersValid}
use dropsort.Db.Invariant.Log.{
  replace-Keeps, append-Keeps, AuditValid-Keeps, PredictionsValid-Keeps, append-AuditValid,
}
use dropsort.Exec.{Result, ok, err}
use dropsort.Session.{Env}
use dropsort.Service.{World, Clear}
use dropsort.Service.Success.{Outcome}
use dropsort.Repositories.Users.{user_key}
use dropsort.Services.UserService.{change_role, set_user_active, remove_user_account, invite}
use dropsort.Services.UserService.Managed.{Changed}
use dropsort.Services.UserService.Inviting.{Invited, invite-Outcome}
use dropsort.Services.UserService.Outcomes.{
  change_role-Outcome, set_user_active-Outcome, remove_user_account-Outcome,
}
use dropsort.Services.UserService.History.{
  Command, role_change, activation, removal, invitation, execute, run,
}

Changed-IsValid :
    (target actor_id : Uuid) (new : User → User) (db db' : Db) (out : UserOut)
    → (c : Changed target actor_id new db db' out) → is_retired (new c.old) ≡ true
    → IsValid db
    → IsValid db'
Changed-IsValid target actor_id new db db' out c retired h =
    let users = replace user_key (new c.old) db.users in
    let keep = replace-Keeps (new c.old) db.users in
    rw c.db_lem (record {
      users = replace-UsersValid (new c.old) db.users h.users c.free retired;
      batches = h.batches;
      predictions =
          PredictionsValid-Keeps db.users users keep db.batches db.predictions h.predictions;
      audit =
          append-AuditValid users c.entry db.audit_log
            (AuditValid-Keeps db.users users keep db.audit_log h.audit) c.logged;
    })

Invited-IsValid :
    (email : String) (r : Role) (actor_id : Uuid) (db db' : Db) (out : UserOut)
    → Invited email r actor_id db out db'
    → IsValid db
    → IsValid db'
Invited-IsValid email r actor_id db db' out c h =
    let users = db.users ++ c.user ∷ [] in
    let keep = append-Keeps c.user db.users in
    rw c.db_lem (record {
      users = append-UsersValid c.user db.users h.users c.free (ground (arith, c.present));
      batches = h.batches;
      predictions =
          PredictionsValid-Keeps db.users users keep db.batches db.predictions h.predictions;
      audit =
          append-AuditValid users c.entry db.audit_log
            (AuditValid-Keeps db.users users keep db.audit_log h.audit) c.logged;
    })

module _ {ℓ} {A : Type ℓ} (db : Db) (P : A → Db → Type 0) where
  Outcome-IsValid :
      ((a : A) (db' : Db) → P a db' → IsValid db')
      → IsValid db
      → (r : Result A) (w : World) → Outcome db P (r, w)
      → IsValid w.db
  Outcome-IsValid f h (ok a) w o = f a w.db o
  Outcome-IsValid f h (err e) w o = rw o h

module _ (env : Env) (clear : Clear) where
  pub execute-IsValid :
      (actor_id : Uuid) (c : Command) (w : World)
      → IsValid w.db
      → IsValid (execute env clear actor_id c w).1.db
  unfolding execute
  execute-IsValid actor_id (role_change target r) w h =
      let (x, w') = change_role env clear target r actor_id w in
      Outcome-IsValid w.db _
        (λ out db' c.
          Changed-IsValid target actor_id _ w.db db' out c (ground (arith, c.allowed)) h)
        h x w' (change_role-Outcome env clear target actor_id w r)
  execute-IsValid actor_id (activation target b) w h =
      let (x, w') = set_user_active env clear target b actor_id w in
      Outcome-IsValid w.db _
        (λ out db' c.
          Changed-IsValid target actor_id _ w.db db' out c (ground (arith, c.allowed)) h)
        h x w' (set_user_active-Outcome env clear target actor_id w b)
  execute-IsValid actor_id (removal target) w h =
      let (x, w') = remove_user_account env clear target actor_id w in
      Outcome-IsValid w.db _ (λ _ db' c. Changed-IsValid target actor_id _ w.db db' c.0 c.1 refl h)
        h x w' (remove_user_account-Outcome env clear target actor_id w)
  execute-IsValid actor_id (invitation email secret r) w h =
      let (x, w') = invite env email secret r actor_id w in
      Outcome-IsValid w.db _ (λ out db' c. Invited-IsValid email r actor_id w.db db' out c h) h x w'
        (invite-Outcome env email secret r actor_id w)

  -- After any requests, keys, addresses and foreign keys are as the schema promises, and no removed
  -- account is active, if they were so before.
  pub run-IsValid :
      (cs : List (Uuid × Command)) (w : World) → IsValid w.db → IsValid (run env clear cs w).1.db
  unfolding run
  run-IsValid [] w h = h
  run-IsValid ((actor_id, c) ∷ cs) w h =
      run-IsValid cs (execute env clear actor_id c w).1 (execute-IsValid actor_id c w h)
