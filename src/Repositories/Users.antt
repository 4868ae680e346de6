-- ===== src/Repositories/Users.antt =====
-- repositories/user_repository.py
pub mod Success
use mathlib.Core.Option
use dropsort.Prelude.{
  ⊤, ℕ, String, Bool, true, false, Option, none, some, List, [], ◌∷◌, ◌++◌, map, str_eq, ◌||◌, ◌&&◌,
  not, find?, any, format, hex, ◌==◌, select, if◌then◌else◌,
}
use dropsort.Domain.{Uuid, Role, UserOut}
use dropsort.Db.{User, Db, user_fits}
use dropsort.Db.Tables.{row, has, replace}
use dropsort.Db.Order.{newest_first}
use dropsort.Exec.{pure, ◌>>=◌, ◌>>◌}
use dropsort.Session.{Env, Tx, gets, draw, write}

-- `UserOut.model_validate(row)`
abbrev pub user_out : User → UserOut
user_out u = record {
  id = u.id;
  email = u.email;
  role = u.role;
  is_active = u.is_active;
  created_at = u.created_at;
  deleted_at = u.deleted_at;
  original_email = u.original_email;
}

abbrev pub user_key : User → Uuid
user_key u = u.id

-- `select(UserORM).where(UserORM.id == id)`
abbrev pub user_row : Uuid → Db → Option User
user_row id db = row user_key id db.users

abbrev pub get_by_id : Uuid → Tx (Option UserOut)
get_by_id user_id = gets (λ db. Option.map user_out (user_row user_id db))

abbrev pub has_email : String → User → Bool
has_email email u = str_eq u.email email

abbrev pub get_by_email : String → Tx (Option UserOut)
get_by_email email = gets (λ db. Option.map user_out (find? (has_email email) db.users))

unfoldable pub list_all : Tx (List UserOut)
list_all = gets (λ db. map user_out (newest_first (λ (u : User). u.created_at) db.users))

-- The primary key and the unique index on the email refuse a row.
abbrev pub user_clash : User → Db → Bool
user_clash u db = has user_key u.id db.users || any (has_email u.email) db.users

abbrev pub insert_user : User → Tx ⊤
insert_user u = write (user_fits u) (user_clash u) (λ db. record db { users = db.users ++ u ∷ [] })

-- Another row has the email that an update sets.
abbrev pub email_taken : User → Db → Bool
email_taken u db = any (λ v. not (v.id == u.id) && str_eq v.email u.email) db.users

abbrev pub update_user : User → Tx ⊤
update_user u =
    write (user_fits u) (email_taken u) (λ db. record db { users = replace user_key u db.users })

abbrev fetch : Uuid → Tx (Option User)
fetch user_id = gets (λ db. user_row user_id db)

abbrev flush_changed : User → Tx (Option UserOut)
flush_changed u = do update_user u; pure (some (user_out u))

abbrev change_row : (User → User) → Option User → Tx (Option UserOut)
change_row f none = pure none
change_row f (some u) = flush_changed (f u)

unfoldable pub set_role : Uuid → Role → Tx (Option UserOut)
set_role user_id new_role = do
  found ← fetch user_id
  change_row (λ u. record u { role = new_role }) found

unfoldable pub set_is_active : Uuid → Bool → Tx (Option UserOut)
set_is_active user_id is_active = do
  found ← fetch user_id
  change_row (λ u. record u { is_active = is_active }) found

-- The address that a removed row gets, `f"removed.{row.id.hex}@example.org"`.
abbrev pub removed_email : Uuid → String
removed_email id = format ("removed." ∷ hex 32 id ∷ "@example.org" ∷ [])

module _ (env : Env) where
  abbrev pub new_user : String → String → Role → ℕ → User
  new_user email auth_hash role n = record {
    id = env.uuid4 n;
    email = email;
    hashed_password = auth_hash;
    is_active = true;
    role = role;
    created_at = env.now n;
    deleted_at = none;
    original_email = none;
  }

  unfoldable pub create : String → String → Role → Tx UserOut
  create email auth_hash role = do
    n ← draw
    insert_user (new_user email auth_hash role n)
    pure (user_out (new_user email auth_hash role n))

  abbrev pub removed_row : User → ℕ → User
  removed_row u n = record u {
    original_email = some u.email;
    is_active = false;
    deleted_at = some (env.now n);
    hashed_password = env.argon2 n (env.token_hex n);
    email = removed_email u.id;
  }

  abbrev soft_delete_row : Option User → Tx (Option UserOut)
  soft_delete_row none = pure none
  soft_delete_row (some u) = elim u.deleted_at [
    | some _ ↦ pure none
    | none ↦ do n ← draw; flush_changed (removed_row u n)
  ]

  unfoldable pub soft_delete : Uuid → Tx (Option UserOut)
  soft_delete user_id = do found ← fetch user_id; soft_delete_row found
