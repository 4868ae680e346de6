-- ===== src/Services/UserService/Managed.antt =====
-- What a role or lifecycle change has done to the tables when it returns: the row of the target,
-- who is no administrator, not the actor and not removed, is replaced, and one audit row is added.

use dropsort.Prelude.{
  false, ◌≡◌, ◌≢◌, refl, ◌∙◌, Option, none, some, [], ◌∷◌, ◌++◌, arith, Option-cases, inl, inr,
}
use dropsort.Domain.{Uuid, UserOut}
use dropsort.Db.{Db, User, AuditLog}
use dropsort.Db.Tables.{replace, key-row}
use dropsort.Exec.{Exc, Result, ok, err, or_raise, pure, continue, ◌>>=◌, ◌>>◌}
use dropsort.Exec.Success.{bind-eq-ok}
use dropsort.Session.{Env, Tx, Session}
use dropsort.Repositories.Users.{user_key, user_row, user_out, email_taken}
use dropsort.Repositories.Users.Success.{Replaced}
use dropsort.Repositories.Audit
use dropsort.Repositories.Audit.{Entry, append, audit_row, audit_clash}
use dropsort.Services.UserService.{require_manageable_target, manageable, is_admin}

-- The target may be managed by the actor.
pub record MayManage (target actor_id : Uuid) (old : User) : Type 0 where
  pub present : old.deleted_at ≡ none
  pub not_self : target ≢ actor_id
  pub not_admin : is_admin old.role ≡ false

-- A change of the target's row by `new`, one audit row of the actor, and nothing else.
pub record Changed (target actor_id : Uuid) (new : User → User) (db db' : Db) (out : UserOut)
    : Type 0 where
  pub old : User
  pub entry : AuditLog
  pub found : user_row target db ≡ some old
  pub allowed : MayManage target actor_id old
  pub by : entry.actor_id ≡ actor_id
  pub free : email_taken (new old) db ≡ false
  pub same_id : (new old).id ≡ target
  pub logged : audit_clash entry (record db { users = replace user_key (new old) db.users }) ≡ false
  pub out_lem : out ≡ user_out (new old)
  pub db_lem : db' ≡ record db {
    users = replace user_key (new old) db.users;
    audit_log = db.audit_log ++ entry ∷ [];
  }

module _ (target actor_id : Uuid) where
  manageable-eq-ok :
      (s t : Session) (current : UserOut)
      → manageable target actor_id s ≡ (ok current, t)
      → (old : User) × (user_row target s.db ≡ some old)
        × MayManage target actor_id old
        × (current ≡ user_out old)
        × (t ≡ s)
  unfolding require_manageable_target
  manageable-eq-ok s t current h = elim (Option-cases (user_row target s.db)) [
    | inl e ↦ ground arith
    | inr (u, e) ↦
        let id : u.id ≡ target = key-row user_key target u s.db.users e in
        (
          u,
          e,
          record { present = ground arith; not_self = ground arith; not_admin = ground arith },
          ground arith,
          ground arith,
        )
  ]

  -- The three operations are this sequence, at their statement `f` and their audit entry.
  abbrev managed : Env → Tx (Option UserOut) → (UserOut → Entry) → Tx UserOut
  managed env f entry = do
    current ← manageable target actor_id
    found ← f
    updated ← or_raise (Exc.user_not_found target) found
    Audit.append env (entry current)
    pure updated

  abbrev record_update : Env → Entry → Option UserOut → Tx UserOut
  record_update env entry found = do
    updated ← or_raise (Exc.user_not_found target) found
    Audit.append env entry
    pure updated

  module _ (env : Env) (new : User → User) (entry : Entry) (s t : Session) (out : UserOut) where
    update-Changed :
        (old : User) (r : Result (Option UserOut)) (s₁ : Session)
        → ((o : UserOut) → r ≡ ok (some o) → Replaced target new s s₁ o)
        → entry.actor_id ≡ actor_id
        → ((u : User) → (new u).id ≡ u.id)
        → user_row target s.db ≡ some old
        → MayManage target actor_id old
        → continue r (record_update env entry) s₁ ≡ (ok out, t)
        → Changed target actor_id new s.db t.db out
    unfolding append
    update-Changed old (err e) s₁ fs by keeps found may h = cc
    update-Changed old (ok none) s₁ fs by keeps found may h = cc
    update-Changed old (ok (some u)) s₁ fs by keeps found may h =
        let replaced : Replaced target new s s₁ u = fs u refl in
        let same : replaced.old ≡ old = ground (arith, replaced.found) in
        record {
          old = old;
          entry = audit_row env entry s₁.draws;
          found = found;
          allowed = may;
          by = by;
          free = rw (← same) replaced.free;
          same_id = keeps old ∙ key-row user_key target old s.db.users found;
          logged = rw (← same) (ground (arith, replaced.db_lem));
          out_lem = ground (arith, same, replaced.out_lem);
          db_lem = rw (← same) (ground (arith, replaced.db_lem));
        }

  module _ (env : Env) (new : User → User) (f : Tx (Option UserOut)) (entry : UserOut → Entry) where
    pub managed-Changed :
        (s t : Session) (out : UserOut)
        → ((o : UserOut) (t' : Session) → f s ≡ (ok (some o), t') → Replaced target new s t' o)
        → ((u : UserOut) → (entry u).actor_id ≡ actor_id)
        → ((u : User) → (new u).id ≡ u.id)
        → managed env f entry s ≡ (ok out, t)
        → Changed target actor_id new s.db t.db out
    managed-Changed s t out fs by keeps h =
        let (current, s', e, k) = bind-eq-ok (manageable target actor_id) _ s h in
        let (old, found, may, cur, same) = manageable-eq-ok s s' current e in
        let k' : continue (f s).0 (record_update env (entry current)) (f s).1 ≡ (ok out, t) =
          rw same at k in
        update-Changed env new (entry current) s t out old (f s).0 (f s).1
          (λ o e. fs o (f s).1 (λ i. (e i, (f s).1))) (by current) keeps found may k'
