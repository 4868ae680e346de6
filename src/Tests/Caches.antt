-- ===== src/Tests/Caches.antt =====
-- The stored profiles and lists at small inputs.
use Prim.Native.Char.{code, char}
use text.Mathlib.TextEquality.{starts_with_iff}
use text.Mathlib.TextLemmas.{append_cancel_left}
use Prim.Native.String.{◌++◌ as append}
use dropsort.Prelude.{
  ap, sym, ◌∙◌, zero, suc, format, ◌==◌, if◌then◌else◌, ℕ, ◌≡◌, refl, String, false, none, some,
  List, [], ◌∷◌, arith, uuid_str,
}
use dropsort.Exec.{pure}
use dropsort.Service.{begin}
use dropsort.Repositories.Users.{user_out, user_row}
use dropsort.Services.UserService.History.{activation, execute}
use dropsort.Services.PredictionService.{list_recent}
use dropsort.Access.{Endpoint}
use dropsort.Access.{enforce}
use dropsort.Prelude.Paths.{contains}
use dropsort.Services.UserService.{set_user_active, require_manageable_target}
use dropsort.Api.{endpoint}
use dropsort.Api.Users.{Digest, me}
use dropsort.Api.Users.Coherent.{Request, command, profile, serve, serve_all, me-refines}
use dropsort.Api.Listings.{ListKey, list_recent_endpoint}
use dropsort.System.{round, relabelling}
use dropsort.System.Recent.{IsListKey}
use dropsort.System.Recent.Refines.{Visit, event, view, visit_all, recent-refines}
use dropsort.Tests.Fixture.{test_env, clear_prefix, tables-IsValid, jane}
use dropsort.Tests.Access.{casbin, loaded}
use dropsort.Tests.System.{setting}
use dropsort.Tests.Worker.{clear_prefix-IsClear}

abbrev sha256 : Digest
sha256 raw = raw

-- A reviewer tries to deactivate the administrator between two views.
abbrev requests : List Request
requests = profile 2 none ∷ command 2 (activation 1 false) ∷ profile 2 none ∷ []

jane_stays :
    user_row 2 (serve_all test_env clear_prefix sha256 casbin requests loaded).db ≡ some jane
unfolding serve_all serve endpoint execute set_user_active begin require_manageable_target enforce
    contains uuid_str
jane_stays = refl

me-refines_example :
    let w' = serve_all test_env clear_prefix sha256 casbin requests loaded in
    (me sha256 casbin jane none w').0
    ≡ (endpoint casbin Endpoint.get_me jane 200 (λ _. none) (pure (user_out jane)) w').0
me-refines_example =
    me-refines test_env clear_prefix sha256 casbin clear_prefix-IsClear requests loaded 2 jane none
      (omega arith, (tt, (omega arith, tt))) (omega arith) (λ key. refl) jane_stays

-- Keys that spell the arguments after the namespace, in strokes.
abbrev strokes : ℕ → String → String
strokes zero s = String.◌∷◌ (char 44 tt) s
strokes (suc n) s = String.◌∷◌ (char 49 tt) (strokes n s)

abbrev spelt : List ℕ → String
spelt [] = ""
spelt (n ∷ ns) = strokes n (spelt ns)

abbrev stroke : List ℕ → List ℕ
stroke [] = []
stroke (n ∷ ns) = suc n ∷ ns

abbrev counted : String → List ℕ
counted String.[] = []
counted (String.◌∷◌ c s) = let rest = counted s in if code c == 44 then 0 ∷ rest else stroke rest

counted-strokes : (n : ℕ) (s : String) → counted (strokes n s) ≡ n ∷ counted s
counted-strokes zero s = refl
counted-strokes (suc n) s = ap stroke (counted-strokes n s)

counted-spelt : (ns : List ℕ) → counted (spelt ns) ≡ ns
counted-spelt [] = refl
counted-spelt (n ∷ ns) = counted-strokes n (spelt ns) ∙ ap (λ ms. n ∷ ms) (counted-spelt ns)

abbrev pub list_key : ListKey
list_key namespace args = append (append namespace ":") (spelt args)

pub list_key-IsListKey : IsListKey list_key
list_key-IsListKey = record {
  starts = λ namespace args.
      (starts_with_iff (list_key namespace args) (format (namespace ∷ ":" ∷ []))).1
        (spelt args, refl);
  distinct = λ namespace args args' e.
      sym (counted-spelt args)
      ∙ ap counted (append_cancel_left (append namespace ":") _ _ e)
      ∙ counted-spelt args';
}

abbrev visits : List Visit
visits = view jane 5 ∷ event (relabelling 30 "letter" 2) ∷ view jane 5 ∷ event round ∷ []

recent-refines_example :
    let w = visit_all setting list_key casbin visits loaded in
    (list_recent_endpoint list_key casbin jane 5 w).0
    ≡ (endpoint casbin Endpoint.list_recent jane 200 (λ _. none) (list_recent 5) w).0
recent-refines_example =
    recent-refines setting list_key casbin clear_prefix-IsClear list_key-IsListKey visits loaded
      jane 5 tables-IsValid (λ key. refl)
