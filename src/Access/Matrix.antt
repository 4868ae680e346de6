-- ===== src/Access/Matrix.antt =====
-- The migrated policy as a matrix of roles and endpoints.
use text.Mathlib.Text.{starts_with}
use dropsort.Prelude.{String, ◌≡◌, refl, ◌∙◌, Bool, true, false, ◌||◌, str_eq, if◌then◌else◌}
use dropsort.Prelude.Paths.{contains}
use dropsort.Domain.{Role, admin, reviewer, auditor}
use dropsort.Services.UserService.{role_name}
use dropsort.Access.{
  Casbin, IsCasbin, enforce, migrated, Endpoint, get_me, list_users, invite_user, change_user_role,
  set_active, remove_user, get_audit, list_batches, upload_batch, get_batch, list_recent,
  relabel_prediction, get_overlay, resource_pattern, method, permitted,
}

-- Everyone reads the batches and their own profile; administrators manage users; administrators and
-- auditors read the audit log; administrators and reviewers upload and work on predictions. That
-- administrators relabel too is what migration 0007 is for.
abbrev pub granted : Role → Endpoint → Bool
granted admin _ = true
granted reviewer get_me = true
granted reviewer list_batches = true
granted reviewer get_batch = true
granted reviewer upload_batch = true
granted reviewer list_recent = true
granted reviewer relabel_prediction = true
granted reviewer get_overlay = true
granted auditor get_me = true
granted auditor list_batches = true
granted auditor get_batch = true
granted auditor get_audit = true
granted _ _ = false

-- Patterns of the migrations, by what they match.
module _ (c : Casbin) (h : IsCasbin c) (key : String) where
  admin_match : c.key_match key "/admin/*" ≡ starts_with key "/admin/"
  unfolding contains
  admin_match = h.star key "/admin/" "" refl

  batches_match : c.key_match key "/batches/*" ≡ starts_with key "/batches/"
  unfolding contains
  batches_match = h.star key "/batches/" "" refl

  predictions_match : c.key_match key "/predictions/*" ≡ starts_with key "/predictions/"
  unfolding contains
  predictions_match = h.star key "/predictions/" "" refl

  overlay_match : c.key_match key "/predictions/*/overlay" ≡ starts_with key "/predictions/"
  unfolding contains
  overlay_match = h.star key "/predictions/" "/overlay" refl

  audit_match : c.key_match key "/audit" ≡ str_eq key "/audit"
  unfolding contains
  audit_match = h.literal key "/audit" refl

  me_match : c.key_match key "/me" ≡ str_eq key "/me"
  unfolding contains
  me_match = h.literal key "/me" refl

  list_match : c.key_match key "/batches" ≡ str_eq key "/batches"
  unfolding contains
  list_match = h.literal key "/batches" refl

  recent_match : c.key_match key "/predictions/recent" ≡ str_eq key "/predictions/recent"
  unfolding contains
  recent_match = h.literal key "/predictions/recent" refl

  upload_match : c.key_match key "/batches/upload" ≡ str_eq key "/batches/upload"
  unfolding contains
  upload_match = h.literal key "/batches/upload" refl

-- The documented behaviour on the patterns of the migrations.
abbrev plain_match : String → String → Bool
plain_match key pattern =
    if str_eq pattern "/admin/*"
    then starts_with key "/admin/"
    else (if str_eq pattern "/batches/*"
        then starts_with key "/batches/"
        else (if str_eq pattern "/predictions/*" || str_eq pattern "/predictions/*/overlay"
            then starts_with key "/predictions/"
            else str_eq key pattern))

abbrev plain : Casbin
plain = record { key_match = plain_match; linked = λ rules s t. str_eq s t }

plain-granted : (role : Role) (e : Endpoint) → permitted plain migrated role e ≡ granted role e
unfolding enforce
plain-granted admin get_me = refl
plain-granted admin list_users = refl
plain-granted admin invite_user = refl
plain-granted admin change_user_role = refl
plain-granted admin set_active = refl
plain-granted admin remove_user = refl
plain-granted admin get_audit = refl
plain-granted admin list_batches = refl
plain-granted admin upload_batch = refl
plain-granted admin get_batch = refl
plain-granted admin list_recent = refl
plain-granted admin relabel_prediction = refl
plain-granted admin get_overlay = refl
plain-granted reviewer get_me = refl
plain-granted reviewer list_users = refl
plain-granted reviewer invite_user = refl
plain-granted reviewer change_user_role = refl
plain-granted reviewer set_active = refl
plain-granted reviewer remove_user = refl
plain-granted reviewer get_audit = refl
plain-granted reviewer list_batches = refl
plain-granted reviewer upload_batch = refl
plain-granted reviewer get_batch = refl
plain-granted reviewer list_recent = refl
plain-granted reviewer relabel_prediction = refl
plain-granted reviewer get_overlay = refl
plain-granted auditor get_me = refl
plain-granted auditor list_users = refl
plain-granted auditor invite_user = refl
plain-granted auditor change_user_role = refl
plain-granted auditor set_active = refl
plain-granted auditor remove_user = refl
plain-granted auditor get_audit = refl
plain-granted auditor list_batches = refl
plain-granted auditor upload_batch = refl
plain-granted auditor get_batch = refl
plain-granted auditor list_recent = refl
plain-granted auditor relabel_prediction = refl
plain-granted auditor get_overlay = refl

module _ (c : Casbin) (h : IsCasbin c) where
  enforce-plain :
      (sub key act : String) → enforce c migrated sub key act ≡ enforce plain migrated sub key act
  unfolding enforce
  enforce-plain sub key act =
      rw
        (
          h.unlinked migrated refl sub "admin",
          h.unlinked migrated refl sub "reviewer",
          h.unlinked migrated refl sub "auditor",
          admin_match c h key,
          batches_match c h key,
          predictions_match c h key,
          overlay_match c h key,
          audit_match c h key,
          me_match c h key,
          list_match c h key,
          recent_match c h key,
          upload_match c h key,
        )
        refl

  pub permitted-granted :
      (role : Role) (e : Endpoint) → permitted c migrated role e ≡ granted role e
  permitted-granted role e =
      enforce-plain (role_name role) (resource_pattern e) (method e) ∙ plain-granted role e
