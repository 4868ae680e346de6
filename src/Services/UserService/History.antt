-- ===== src/Services/UserService/History.antt =====
-- Any sequence of administrative requests.
use dropsort.Prelude.{
  String, Bool, true, false, ◌≡◌, refl, ap, sym, ◌∙◌, some, List, [], ◌∷◌, ◌++◌, arith, ◌||◌,
  is_some, map, map-append, append_assoc, append-nil, if◌then◌else◌,
}
use dropsort.Domain.{Uuid, Role, UserOut}
use dropsort.Db.{Db, User, AuditLog}
use dropsort.Db.Tables.{row-replace_ne, row-append_old}
use dropsort.Exec.{Result, ok, err, is_ok}
use dropsort.Session.{Env}
use dropsort.Service.{World, Clear}
use dropsort.Service.Success.{Outcome}
use dropsort.Repositories.Users.{user_key, user_row}
use dropsort.Services.UserService.{
  change_role, set_user_active, remove_user_account, invite, is_admin,
}
use dropsort.Services.UserService.Managed.{Changed}
use dropsort.Services.UserService.Outcomes.{
  change_role-Outcome, set_user_active-Outcome, remove_user_account-Outcome,
}
use dropsort.Services.UserService.Inviting.{Invited, invite-Outcome}

-- The requests that api/admin.py passes on.
pub data Command : Type 0 where
  role_change : Uuid → Role → Command
  activation : Uuid → Bool → Command
  removal : Uuid → Command
  invitation : String → String → Role → Command

-- An administrator's row or a removed one.
abbrev pub is_protected : User → Bool
is_protected u = is_admin u.role || is_some u.deleted_at

module _ (env : Env) (clear : Clear) where
  abbrev answered {ℓ} : {A : Type ℓ} → Result A × World → Bool × World
  answered (r, w) = (is_ok r, w)

  -- Whether the request succeeded, and what it left.
  unfoldable pub execute : Uuid → Command → World → Bool × World
  execute actor_id (role_change target r) w = answered (change_role env clear target r actor_id w)
  execute actor_id (activation target b) w =
      answered (set_user_active env clear target b actor_id w)
  execute actor_id (removal target) w = answered (remove_user_account env clear target actor_id w)
  execute actor_id (invitation email secret r) w = answered (invite env email secret r actor_id w)

-- What one request has done to the tables.
pub record Accounted (actor_id : Uuid) (db : Db) (success : Bool) (db' : Db) : Type 0 where
  pub entries : List AuditLog
  pub log : db'.audit_log ≡ db.audit_log ++ entries
  pub actors : map (λ (a : AuditLog). a.actor_id) entries ≡ (if success then actor_id ∷ [] else [])
  pub protected :
      (k : Uuid) (u : User)
      → user_row k db ≡ some u
      → is_protected u ≡ true
      → user_row k db' ≡ some u

Accounted-unchanged : (actor_id : Uuid) (db db' : Db) → db' ≡ db → Accounted actor_id db false db'
Accounted-unchanged actor_id db db' e = record {
  entries = [];
  log = rw (e, append-nil);
  actors = refl;
  protected = λ k u h p. rw e h;
}

Accounted-Changed :
    (target actor_id : Uuid) (new : User → User) (db db' : Db) (out : UserOut)
    → Changed target actor_id new db db' out
    → Accounted actor_id db true db'
Accounted-Changed target actor_id new db db' out c = record {
  entries = c.entry ∷ [];
  log = rw c.db_lem;
  actors = ground (arith, c.by);
  protected = λ k u h p. rw c.db_lem (
      ground
        (arith, c.same_id, c.found, c.allowed, row-replace_ne user_key k (new c.old) db.users));
}

Accounted-Invited :
    (email : String) (r : Role) (actor_id : Uuid) (db db' : Db) (out : UserOut)
    → Invited email r actor_id db out db'
    → Accounted actor_id db true db'
Accounted-Invited email r actor_id db db' out c = record {
  entries = c.entry ∷ [];
  log = rw c.db_lem;
  actors = ground (arith, c.by);
  protected = λ k u h p. rw c.db_lem (row-append_old user_key k u c.user db.users h);
}

module _ {ℓ} {A : Type ℓ} (actor_id : Uuid) (db : Db) (P : A → Db → Type 0) where
  Outcome-Accounted :
      ((a : A) (db' : Db) → P a db' → Accounted actor_id db true db')
      → (r : Result A) (w : World) → Outcome db P (r, w)
      → Accounted actor_id db (is_ok r) w.db
  Outcome-Accounted f (ok a) w h = f a w.db h
  Outcome-Accounted f (err e) w h = Accounted-unchanged actor_id db w.db h

module _ (env : Env) (clear : Clear) (actor_id : Uuid) (w : World) where
  execute-Accounted :
      (c : Command)
      → let (success, w') = execute env clear actor_id c w in Accounted actor_id w.db success w'.db
  unfolding execute
  execute-Accounted (role_change target r) =
      let (x, w') = change_role env clear target r actor_id w in
      Outcome-Accounted actor_id w.db _
        (λ out db'. Accounted-Changed target actor_id _ w.db db' out) x w'
        (change_role-Outcome env clear target actor_id w r)
  execute-Accounted (activation target b) =
      let (x, w') = set_user_active env clear target b actor_id w in
      Outcome-Accounted actor_id w.db _
        (λ out db'. Accounted-Changed target actor_id _ w.db db' out) x w'
        (set_user_active-Outcome env clear target actor_id w b)
  execute-Accounted (removal target) =
      let (x, w') = remove_user_account env clear target actor_id w in
      Outcome-Accounted actor_id w.db _
        (λ _ db' c. Accounted-Changed target actor_id _ w.db db' c.0 c.1) x w'
        (remove_user_account-Outcome env clear target actor_id w)
  execute-Accounted (invitation email secret r) =
      let (x, w') = invite env email secret r actor_id w in
      Outcome-Accounted actor_id w.db _ (λ out db'. Accounted-Invited email r actor_id w.db db' out)
        x w' (invite-Outcome env email secret r actor_id w)

join-actors :
    (actor_id : Uuid) (success : Bool) (entries rest : List AuditLog) (actors : List Uuid)
    → map (λ (a : AuditLog). a.actor_id) entries ≡ (if success then actor_id ∷ [] else [])
    → map (λ (a : AuditLog). a.actor_id) rest ≡ actors
    → map (λ (a : AuditLog). a.actor_id) (entries ++ rest)
      ≡ (if success then actor_id ∷ actors else actors)
join-actors actor_id true entries rest actors h k = rw (map-append, h, k)
join-actors actor_id false entries rest actors h k = rw (map-append, h, k)

module _ (env : Env) (clear : Clear) where
  -- The requests in order, and who made those that succeeded.
  unfoldable pub run : List (Uuid × Command) → World → List Uuid × World
  run [] w = ([], w)
  run ((actor_id, c) ∷ cs) w =
      let (success, w') = execute env clear actor_id c w in
      let (actors, w'') = run cs w' in (if success then actor_id ∷ actors else actors, w'')

  -- Whatever the requests, the row of an administrator and the row of a removed account stay
  -- exactly as they are.
  pub run-protected :
      (cs : List (Uuid × Command)) (w : World) (k : Uuid) (u : User)
      → user_row k w.db ≡ some u
      → is_protected u ≡ true
      → user_row k (run cs w).1.db ≡ some u
  unfolding run
  run-protected [] w k u h p = h
  run-protected ((actor_id, c) ∷ cs) w k u h p =
      run-protected cs (execute env clear actor_id c w).1 k u
        ((execute-Accounted env clear actor_id w c).protected k u h p) p

  -- The audit log only grows, by one row for each request that succeeded and none for one that
  -- failed, in the order of the requests and under the names of those who made them.
  pub run-audit_log :
      (cs : List (Uuid × Command)) (w : World)
      → let (actors, w') = run cs w in
        (entries : List AuditLog) × (w'.db.audit_log ≡ w.db.audit_log ++ entries)
        × (map (λ (a : AuditLog). a.actor_id) entries ≡ actors)
  unfolding run
  run-audit_log [] w = ([], sym (append-nil _), refl)
  run-audit_log ((actor_id, c) ∷ cs) w =
      let step = execute-Accounted env clear actor_id w c in
      let (rest, log, actors) = run-audit_log cs (execute env clear actor_id c w).1 in
      (
        step.entries ++ rest,
        log ∙ ap (λ (l : List AuditLog). l ++ rest) step.log ∙ append_assoc _ step.entries rest,
        join-actors actor_id (execute env clear actor_id c w).0 step.entries rest _ step.actors
            actors,
      )
