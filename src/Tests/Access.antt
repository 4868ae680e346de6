-- ===== src/Tests/Access.antt =====
-- Access control, with `keyMatch` written out.
use Prim.Native.String.{◌++◌ as append}
use Prim.Native.Char.{code, char}
use text.Mathlib.Text.{starts_with}
use text.Mathlib.TextLemmas.{cons-append, nil-append}
use dropsort.Prelude.{String, Bool, true, false, ◌≡◌, refl, str_eq, if◌then◌else◌, arith, ◌==◌}
use dropsort.Prelude.Paths.{contains}
use dropsort.Domain.{auditor}
use dropsort.Service.{World}
use dropsort.Access.{Casbin, IsCasbin, migrated, permitted, upload_batch}
use dropsort.Access.Matrix.{permitted-granted}
use dropsort.Api.{refused}
use dropsort.Api.Admin.{
  list_users_endpoint, invite_user_endpoint, change_role_endpoint, set_user_active_endpoint,
  remove_user_endpoint,
}
use dropsort.Api.Admin.Guard.{admin_endpoints-refused}
use dropsort.Tests.Fixture.{test_env, clear_prefix, world, jane}

unfoldable pub before_star : String → String
before_star String.[] = ""
before_star (String.◌∷◌ c s) =
    let rest = before_star s in if code c == 42 then "" else String.◌∷◌ c rest

before_star-append :
    (before after : String)
    → contains 42 before ≡ false
    → (contains 42 (append before (append "*" after)) ≡ true)
      × (before_star (append before (append "*" after)) ≡ before)
unfolding contains before_star
before_star-append String.[] after h =
    rw (nil-append (append "*" after), cons-append (char 42 tt) "" after) (refl, refl)
before_star-append (String.◌∷◌ c s) after h =
    let (has, is) = before_star-append s after (ground arith) in
    rw (cons-append c s (append "*" after)) (ground arith, ground arith)

abbrev key_match : String → String → Bool
key_match key pattern =
    if contains 42 pattern then starts_with key (before_star pattern) else str_eq key pattern

abbrev pub casbin : Casbin
casbin = record { key_match = key_match; linked = λ rules s t. str_eq s t }

pub casbin-IsCasbin : IsCasbin casbin
casbin-IsCasbin = record {
  literal = λ key pattern h. rw h refl;
  star =
      λ key before after h. let (has, is) = before_star-append before after h in rw (has, is) refl;
  unlinked = λ rules h s t. refl;
}

permitted-granted_example : permitted casbin migrated auditor upload_batch ≡ false
permitted-granted_example = permitted-granted casbin casbin-IsCasbin auditor upload_batch

abbrev pub loaded : World
loaded = record world { policy = migrated }

admin_endpoints-refused_example :
    (list_users_endpoint test_env clear_prefix casbin jane loaded
      ≡ (refused 403 "Permission denied", loaded))
    × (invite_user_endpoint test_env clear_prefix casbin jane "x" "s" auditor loaded
        ≡ (refused 403 "Permission denied", loaded))
    × (change_role_endpoint test_env clear_prefix casbin jane 3 auditor loaded
        ≡ (refused 403 "Permission denied", loaded))
    × (set_user_active_endpoint test_env clear_prefix casbin jane 3 false loaded
        ≡ (refused 403 "Permission denied", loaded))
    × (remove_user_endpoint test_env clear_prefix casbin jane 3 loaded
        ≡ (refused 403 "Permission denied", loaded))
admin_endpoints-refused_example =
    admin_endpoints-refused test_env clear_prefix casbin jane loaded casbin-IsCasbin refl
      (λ e. ground arith) "x" "s" auditor 3 false
