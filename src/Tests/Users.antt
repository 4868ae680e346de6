-- ===== src/Tests/Users.antt =====
-- The operations on users: runs, and the theorems at these inputs.
use dropsort.Prelude.Paths.{contains}
use dropsort.Prelude.{Bool, ◌≡◌, refl, some, List, [], ◌∷◌, ◌++◌, map, uuid_str, hex}
use dropsort.Domain.{Uuid, reviewer, auditor}
use dropsort.Db.{AuditLog, user_fits, audit_fits}
use dropsort.Db.Invariant.{IsValid}
use dropsort.Service.{begin}
use dropsort.Repositories.Users.{user_row, set_role, set_is_active, soft_delete, create}
use dropsort.Repositories.Audit.{append}
use dropsort.Services.UserService.{
  change_role, set_user_active, remove_user_account, invite, require_manageable_target,
}
use dropsort.Services.UserService.History.{
  Command, role_change, activation, removal, invitation, execute, run, run-protected, run-audit_log,
}
use dropsort.Services.UserService.Validity.{run-IsValid}
use dropsort.Tests.Fixture.{test_env, clear_prefix, root, world, tables-IsValid}

-- Jane is removed, her address is invited again, and two forbidden requests fail.
abbrev requests : List (Uuid × Command)
requests =
    (1, role_change 2 auditor)
    ∷ (1, removal 2)
    ∷ (1, removal 1)
    ∷ (3, activation 1 Bool.false)
    ∷ (1, invitation "jane@example.com" "secret" reviewer)
    ∷ []

run-requests : (run test_env clear_prefix requests world).0 ≡ 1 ∷ 1 ∷ 1 ∷ []
unfolding run execute change_role set_user_active remove_user_account invite begin set_role
    set_is_active soft_delete create append require_manageable_target user_fits audit_fits uuid_str
    hex contains
run-requests = refl

run-protected_example : user_row 1 (run test_env clear_prefix requests world).1.db ≡ some root
run-protected_example = run-protected test_env clear_prefix requests world 1 root refl refl

run-audit_log_example :
    let (actors, w') = run test_env clear_prefix requests world in
    (entries : List AuditLog) × (w'.db.audit_log ≡ [] ++ entries)
    × (map (λ (a : AuditLog). a.actor_id) entries ≡ actors)
run-audit_log_example = run-audit_log test_env clear_prefix requests world

run-IsValid_example : IsValid (run test_env clear_prefix requests world).1.db
run-IsValid_example = run-IsValid test_env clear_prefix requests world tables-IsValid
