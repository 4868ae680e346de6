-- ===== src/Api/Users/Profiles.antt =====
-- services/user_service.py: what an administrative request does to the stored profiles of api/users.py.
use text.Mathlib.Text.{starts_with}
use text.Mathlib.TextEquality.{starts_with_iff}
use text.Mathlib.TextLemmas.{append_assoc, append-nil, append_cancel_left}
use Prim.Native.String.{◌++◌ as append}
use dropsort.Prelude.{
  ◌+◌, ◌<◌, ◌^◌, ◌≡◌, ◌⊎◌, inl, inr, refl, ap, sym, ◌∙◌, String, Bool, true, Option, none, some, [],
  ◌∷◌, format, uuid_str,
}
use dropsort.Prelude.Uuids.Printed.{uuid_str-inj}
use dropsort.Domain.{Uuid, Role, UserOut}
use dropsort.Db.{Db, User}
use dropsort.Db.Tables.{row-append_old}
use dropsort.Exec.{Result, ok, err, pure, continue, ◌>>◌}
use dropsort.Session.{Env}
use dropsort.Service.{World, Clear, Action, Response, begin, session, clear_cache, load_policy}
use dropsort.Service.Success.{Outcome}
use dropsort.Repositories.Users.{user_key, user_row, user_out}
use dropsort.Services.UserService.{
  change_role, set_user_active, remove_user_account, invite, change_role_tx, set_user_active_tx,
  remove_user_tx, invite_tx,
}
use dropsort.Services.UserService.Inviting.{Invited, invite-Outcome}
use dropsort.Services.UserService.History.{
  Command, role_change, activation, removal, invitation, execute,
}
use dropsort.Service.Thins.{IsClear, settle-cache, Spared, begin-Spared}

abbrev pub profile_key : Uuid → String
profile_key k = format ("me" ∷ ":" ∷ uuid_str k ∷ [])

pub profile_key-inj :
    (j k : Uuid) → j < 2 ^ 128 → k < 2 ^ 128 → profile_key j ≡ profile_key k → j ≡ k
profile_key-inj j k hj hk e =
    let tails = append_cancel_left ":" _ _ (append_cancel_left "me" _ _ e) in
    uuid_str-inj j k hj hk (sym (append-nil (uuid_str j)) ∙ tails ∙ append-nil (uuid_str k))

profile_key-starts : (k : Uuid) → starts_with (profile_key k) "me:" ≡ true
profile_key-starts k = (starts_with_iff (profile_key k) "me:").1 (
  uuid_str k,
  ap (append "me:") (sym (append-nil (uuid_str k)))
      ∙ append_assoc "me" ":" (append (uuid_str k) ""),
)

-- Whoever has a stored profile is in the tables as the profile says.
abbrev pub IsCoherent : World → Type 0
IsCoherent w =
    (k : Uuid) (r : Response)
    → k < 2 ^ 128
    → w.cache (profile_key k) ≡ some r
    → (u : User) × (user_row k w.db ≡ some u) × (r ≡ Response.me (user_out u))

-- No profile is stored.
abbrev pub Emptied : World → Type 0
Emptied w = (k : Uuid) → w.cache (profile_key k) ≡ none

-- The same answers are stored, and every account is what it was.
abbrev pub Grown : World → World → Type 0
Grown w w' =
    (w'.cache ≡ w.cache)
    × ((k : Uuid) (u : User) → user_row k w.db ≡ some u → user_row k w'.db ≡ some u)

pub Grown-IsCoherent : (w w' : World) → Grown w w' ⊎ Emptied w' → IsCoherent w → IsCoherent w'
Grown-IsCoherent w w' (inl (cache, rows)) h k r small stored =
    let (u, found, same) =
      h k r small (ap (λ (c : String → Option Response). c (profile_key k)) (sym cache) ∙ stored) in
    (u, rows k u found, same)
Grown-IsCoherent w w' (inr gone) h k r small stored = cc (gone k)

cleared-Emptied :
    (clear : Clear) (w : World) → IsClear clear → Emptied (record w { cache = clear "me" w.cache })
cleared-Emptied clear w h k = h "me" w.cache (profile_key k) ∙ rw (profile_key-starts k) refl

after_commit {ℓ κ} :
    {A : Type ℓ} {B : Type κ} (r : Result A) (w v : World) (f : A → Action B)
    → Spared r w v
    → ((a : A) → Emptied (f a v).1)
    → Grown w (continue r f v).1 ⊎ Emptied (continue r f v).1
after_commit (ok a) w v f s h = inr (h a)
after_commit (err e) w v f s h = inl (s.0, λ k u found. rw (s.1) found)

-- What one administrative request does to the stored profiles and to the accounts.
module _ (env : Env) (clear : Clear) (h : IsClear clear) (actor_id : Uuid) (w : World) where
  change_role-effect :
      (target : Uuid) (r : Role)
      → let w' = (change_role env clear target r actor_id w).1 in Grown w w' ⊎ Emptied w'
  unfolding change_role
  change_role-effect target r =
      let tx = change_role_tx env clear target r actor_id in
      let (x, v) = begin tx w in
      after_commit x w v (λ updated. do load_policy; clear_cache clear "me"; pure updated)
        (begin-Spared tx w) (λ a. cleared-Emptied clear (record v { policy = v.db.casbin_rules }) h)

  set_user_active-effect :
      (target : Uuid) (b : Bool)
      → let w' = (set_user_active env clear target b actor_id w).1 in Grown w w' ⊎ Emptied w'
  unfolding set_user_active
  set_user_active-effect target b =
      let tx = set_user_active_tx env clear target b actor_id in
      let (x, v) = begin tx w in
      after_commit x w v (λ updated. do clear_cache clear "me"; pure updated) (begin-Spared tx w)
        (λ a. cleared-Emptied clear v h)

  remove_user_account-effect :
      (target : Uuid)
      → let w' = (remove_user_account env clear target actor_id w).1 in Grown w w' ⊎ Emptied w'
  unfolding remove_user_account
  remove_user_account-effect target =
      let tx = remove_user_tx env clear target actor_id in
      let (x, v) = begin tx w in
      after_commit x w v (λ _. clear_cache clear "me") (begin-Spared tx w)
        (λ a. cleared-Emptied clear v h)

row-Invited :
    (email : String) (role : Role) (actor_id : Uuid) (db : Db) (x : Result UserOut) (v : World)
    → Outcome db (Invited email role actor_id db) (x, v)
    → (k : Uuid) (u : User) → user_row k db ≡ some u
    → user_row k v.db ≡ some u
row-Invited email role actor_id db (ok out) v o k u found =
    rw (o.db_lem) (row-append_old user_key k u o.user db.users found)
row-Invited email role actor_id db (err e) v o k u found = rw o found

invite-effect :
    (env : Env) (email secret : String) (role : Role) (actor_id : Uuid) (w : World)
    → Grown w (invite env email secret role actor_id w).1
unfolding invite begin
invite-effect env email secret role actor_id w =
    let tx = invite_tx env email (env.argon2 w.draws secret) role actor_id in
    let v = record w { draws = w.draws + 1 } in
    let (x, w') = invite env email secret role actor_id w in
    (
      settle-cache (tx (session v)) v,
      row-Invited email role actor_id w.db x w' (invite-Outcome env email secret role actor_id w),
    )

pub execute-effect :
    (env : Env) (clear : Clear)
    → IsClear clear
    → (actor_id : Uuid) (c : Command) (w : World)
    → let w' = (execute env clear actor_id c w).1 in Grown w w' ⊎ Emptied w'
unfolding execute
execute-effect env clear h actor_id (role_change target r) w =
    change_role-effect env clear h actor_id w target r
execute-effect env clear h actor_id (activation target b) w =
    set_user_active-effect env clear h actor_id w target b
execute-effect env clear h actor_id (removal target) w =
    remove_user_account-effect env clear h actor_id w target
execute-effect env clear h actor_id (invitation email secret r) w =
    inl (invite-effect env email secret r actor_id w)
