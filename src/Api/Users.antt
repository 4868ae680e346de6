-- ===== src/Api/Users.antt =====
-- api/users.py: the profile of the caller, and the key of its stored answer.
pub mod Profiles
pub mod Coherent
use dropsort.Prelude.{
  ⊤, String, Option, none, some, List, [], ◌∷◌, format, uuid_str, str_eq, if◌then◌else◌,
}
use dropsort.Domain.{UserOut}
use dropsort.Db.{User}
use dropsort.Exec.{ok}
use dropsort.Service.{World, Action, Response}
use dropsort.Repositories.Users.{user_out}
use dropsort.Access.{Casbin, Endpoint}
use dropsort.Api.{Reply, endpoint}

-- hashlib: the hexadecimal SHA-256 of a text in UTF-8
abbrev pub Digest : Type 0
Digest = String → String

-- The caller's identifier; without a caller, the hash of the Authorization header if there is one.
abbrev suffix : Digest → Option User → Option (Option String) → String
suffix sha256 (some user) request = uuid_str user.id
suffix sha256 none (some (some raw)) = if str_eq raw "" then "anon" else sha256 raw
suffix sha256 none (some none) = "anon"
suffix sha256 none none = "anon"

-- `_me_cache_key_builder`, with the caller among the arguments and the request with its header
abbrev pub me_cache_key : Digest → String → Option User → Option (Option String) → String
me_cache_key sha256 namespace user request =
    format (namespace ∷ ":" ∷ suffix sha256 user request ∷ [])

module _ (sha256 : Digest) (casbin : Casbin) (user : User) (request : Option (Option String)) where
  abbrev pub own_key : String
  own_key = me_cache_key sha256 "me" (some user) request

  abbrev pub store_me : Action UserOut
  store_me w = (
    ok (user_out user),
    record w {
      cache = λ key. if str_eq key own_key then some (Response.me (user_out user)) else w.cache key;
    },
  )

  -- `@cache` around the endpoint
  abbrev pub cached_me : Option Response → Action UserOut
  cached_me (some (Response.me out)) w = (ok out, w)
  cached_me _ w = store_me w

  abbrev pub me : World → Reply UserOut × World
  me = endpoint casbin Endpoint.get_me user 200 (λ _. none) (λ w. cached_me (w.cache own_key) w)
