-- ===== src/Access.antt =====
-- infra/casbin/enforcer.py, services/casbin_service.py, api/deps.py and the policy rows of the
-- migrations: who may call what.
pub mod Matrix
use Prim.Native.String.{◌++◌ as append}
use text.Mathlib.Text.{starts_with}
use dropsort.Prelude.{
  ℕ, String, ◌≡◌, refl, Bool, true, false, ◌&&◌, ◌||◌, List, [], ◌∷◌, ◌++◌, str_eq, any, length,
}
use dropsort.Prelude.Paths.{contains}
use dropsort.Domain.{Role, admin, reviewer, auditor}
use dropsort.Db.{CasbinRule, Db}
use dropsort.Services.UserService.{role_name}

-- What Casbin supplies: `keyMatch` and the relation `g` of the rows of the type `g`.
pub record Casbin : Type 0 where
  pub key_match : String → String → Bool
  pub linked : List CasbinRule → String → String → Bool

-- As documented: a pattern without a star matches itself, one with a star what begins like it
-- before the star, and without rows of the type `g` a subject is linked to itself only.
pub record IsCasbin (c : Casbin) : Type 0 where
  pub literal :
      (key pattern : String)
      → contains 42 pattern ≡ false
      → c.key_match key pattern ≡ str_eq key pattern
  pub star :
      (key before after : String)
      → contains 42 before ≡ false
      → c.key_match key (append before (append "*" after)) ≡ starts_with key before
  pub unlinked :
      (rules : List CasbinRule)
      → any (λ (r : CasbinRule). str_eq r.ptype "g") rules ≡ false
      → (s t : String) → c.linked rules s t ≡ str_eq s t

module _ (c : Casbin) where
  -- The matcher of model.conf for one row of the type `p`.
  abbrev pub matches : List CasbinRule → String → String → String → CasbinRule → Bool
  matches rules sub obj act r =
      str_eq r.ptype "p"
      && ((c.linked rules sub r.v0 || str_eq sub r.v0) && (c.key_match obj r.v1 && str_eq act r.v2))

  -- `enforcer.enforce`: some row allows.
  unfoldable pub enforce : List CasbinRule → String → String → String → Bool
  enforce rules sub obj act = any (matches rules sub obj act) rules

abbrev pub allow : String → String → String → CasbinRule
allow v0 v1 v2 = record { ptype = "p"; v0 = v0; v1 = v1; v2 = v2 }

-- alembic/versions/0002_schema_and_seed.py
abbrev pub seed_policies : List CasbinRule
seed_policies =
    allow "admin" "/admin/*" "GET"
    ∷ allow "admin" "/admin/*" "POST"
    ∷ allow "admin" "/admin/*" "PATCH"
    ∷ allow "admin" "/admin/*" "DELETE"
    ∷ allow "admin" "/audit" "GET"
    ∷ allow "admin" "/batches" "GET"
    ∷ allow "admin" "/batches/*" "GET"
    ∷ allow "admin" "/predictions/*" "GET"
    ∷ allow "admin" "/me" "GET"
    ∷ allow "reviewer" "/me" "GET"
    ∷ allow "reviewer" "/batches" "GET"
    ∷ allow "reviewer" "/batches/*" "GET"
    ∷ allow "reviewer" "/predictions/recent" "GET"
    ∷ allow "reviewer" "/predictions/*" "PATCH"
    ∷ allow "auditor" "/me" "GET"
    ∷ allow "auditor" "/batches" "GET"
    ∷ allow "auditor" "/batches/*" "GET"
    ∷ allow "auditor" "/audit" "GET"
    ∷ []

-- alembic/versions/0005_casbin_batches_upload.py
abbrev pub upload_policies : List CasbinRule
upload_policies =
    allow "admin" "/batches/upload" "POST" ∷ allow "reviewer" "/batches/upload" "POST" ∷ []

-- alembic/versions/0006_casbin_prediction_overlay.py
abbrev pub overlay_policies : List CasbinRule
overlay_policies =
    allow "admin" "/predictions/*/overlay" "GET"
    ∷ allow "reviewer" "/predictions/*/overlay" "GET"
    ∷ []

-- alembic/versions/0007_casbin_admin_prediction_patch.py
abbrev pub patch_policies : List CasbinRule
patch_policies = allow "admin" "/predictions/*" "PATCH" ∷ []

-- The table after `alembic upgrade head`.
abbrev pub migrated : List CasbinRule
migrated = seed_policies ++ (upload_policies ++ (overlay_policies ++ patch_policies))

-- `policy_row_count`
abbrev pub policy_row_count : Db → ℕ
policy_row_count db = length db.casbin_rules

-- The routes of app/api that ask for a permission.
pub data Endpoint : Type 0 where
  get_me : Endpoint
  list_users : Endpoint
  invite_user : Endpoint
  change_user_role : Endpoint
  set_active : Endpoint
  remove_user : Endpoint
  get_audit : Endpoint
  list_batches : Endpoint
  upload_batch : Endpoint
  get_batch : Endpoint
  list_recent : Endpoint
  relabel_prediction : Endpoint
  get_overlay : Endpoint

-- The arguments of `require_permission`: the route as it is written, not the requested path.
abbrev pub resource_pattern : Endpoint → String
resource_pattern get_me = "/me"
resource_pattern list_users = "/admin/users"
resource_pattern invite_user = "/admin/users/invite"
resource_pattern change_user_role = "/admin/users/{target_user_id}/role"
resource_pattern set_active = "/admin/users/{target_user_id}/active"
resource_pattern remove_user = "/admin/users/{target_user_id}"
resource_pattern get_audit = "/audit"
resource_pattern list_batches = "/batches"
resource_pattern upload_batch = "/batches/upload"
resource_pattern get_batch = "/batches/{batch_id}"
resource_pattern list_recent = "/predictions/recent"
resource_pattern relabel_prediction = "/predictions/{prediction_id}"
resource_pattern get_overlay = "/predictions/{prediction_id}/overlay"

abbrev pub method : Endpoint → String
method invite_user = "POST"
method change_user_role = "POST"
method upload_batch = "POST"
method set_active = "PATCH"
method relabel_prediction = "PATCH"
method remove_user = "DELETE"
method _ = "GET"

-- `require_permission`, for an endpoint and the role of the caller
abbrev pub permitted : Casbin → List CasbinRule → Role → Endpoint → Bool
permitted c rules role e = enforce c rules (role_name role) (resource_pattern e) (method e)
