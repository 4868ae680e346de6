-- ===== src/Db/Invariant/Users.antt =====
-- The table `users` under an insert and an update.
use dropsort.Prelude.{
  ◌≡◌, true, false, not, ◌&&◌, List, [], ◌∷◌, ◌++◌, arith, any, str_eq, ◌==◌, all-append_one, ◌||◌,
}
use dropsort.Db.{User}
use dropsort.Db.Tables.{has, replace, replace-IsKeyed, append-IsKeyed, all-replace}
use dropsort.Db.Distinct.{append-Distinct, replace-Distinct}
use dropsort.Db.Invariant.{UsersValid, user_id, same_email, same_email_symm, is_retired}

pub replace-UsersValid :
    (u : User) (users : List User)
    → UsersValid users
    → any (λ v. not (v.id == u.id) && str_eq v.email u.email) users ≡ false
    → is_retired u ≡ true
    → UsersValid (replace user_id u users)
replace-UsersValid u users h free retired = record {
  keyed = replace-IsKeyed user_id u users h.keyed;
  emails = replace-Distinct same_email same_email_symm user_id u users h.emails h.keyed free;
  retired = all-replace user_id is_retired u users h.retired retired;
}

pub append-UsersValid :
    (u : User) (users : List User)
    → UsersValid users
    → (has user_id u.id users || any (same_email u) users) ≡ false
    → is_retired u ≡ true
    → UsersValid (users ++ u ∷ [])
append-UsersValid u users h new retired = record {
  keyed = append-IsKeyed user_id u users h.keyed (ground arith);
  emails = append-Distinct same_email same_email_symm u users h.emails (ground arith);
  retired = all-append_one is_retired users u h.retired retired;
}
