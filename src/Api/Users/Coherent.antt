-- ===== src/Api/Users/Coherent.antt =====
-- api/users.py and services/user_service.py: the stored profiles under any order of requests.
use dropsort.Prelude.{
  ⊤, ◌<◌, ◌^◌, ◌≡◌, inl, inr, refl, ap, sym, ◌∙◌, String, Bool, true, false, Option, none, some,
  List, [], ◌∷◌, str_eq, eq_iff, Bool-cases, if◌then◌else◌, All, arith,
}
use dropsort.Domain.{Uuid}
use dropsort.Db.{Db, User}
use dropsort.Db.Tables.{key-row}
use dropsort.Exec.{ok, pure}
use dropsort.Session.{Env}
use dropsort.Service.{World, Clear, Response}
use dropsort.Repositories.Users.{user_key, user_row, user_out}
use dropsort.Services.UserService.History.{Command, execute}
use dropsort.Access.{Casbin, Endpoint, permitted}
use dropsort.Api.{endpoint}
use dropsort.Service.Thins.{IsClear}
use dropsort.Api.Users.{Digest, store_me, cached_me, me}
use dropsort.Api.Users.Profiles.{
  profile_key, profile_key-inj, IsCoherent, Grown-IsCoherent, execute-effect,
}

-- An answer that is stored for the caller.
store_me-IsCoherent :
    (sha256 : Digest) (casbin : Casbin) (u : User) (request : Option (Option String)) (w : World)
    → u.id < 2 ^ 128
    → user_row u.id w.db ≡ some u
    → IsCoherent w
    → IsCoherent (store_me sha256 casbin u request w).1
store_me-IsCoherent sha256 casbin u request w small found h k r bound stored =
    elim (Bool-cases (str_eq (profile_key k) (profile_key u.id))) [
      | inl t ↦
          let same : k ≡ u.id = profile_key-inj k u.id bound small ((eq_iff _ _).0 t) in
          let answer : some (Response.me (user_out u)) ≡ some r = rw t at stored in
          (u, ap (λ (x : Uuid). user_row x w.db) same ∙ found, cc)
      | inr f ↦ h k r bound (rw f at stored)
    ]

abbrev active : Option User → Option User
active none = none
active (some u) = if u.is_active then some u else none

-- Who the caller is: an active account, by the identifier of the token.
abbrev pub authenticated : Uuid → Db → Option User
authenticated id db = active (user_row id db)

-- An administrative request, or a view of the profile.
pub data Request : Type 0 where
  command : Uuid → Command → Request
  profile : Uuid → Option (Option String) → Request

abbrev pub IsUuid : Request → Type 0
IsUuid (command actor_id c) = ⊤
IsUuid (profile id request) = id < 2 ^ 128

module _ (env : Env) (clear : Clear) (sha256 : Digest) (casbin : Casbin) where
  abbrev view : Option User → Option (Option String) → World → World
  view none request w = w
  view (some u) request w = (me sha256 casbin u request w).1

  unfoldable pub serve : Request → World → World
  serve (command actor_id c) w = (execute env clear actor_id c w).1
  serve (profile id request) w = view (authenticated id w.db) request w

  unfoldable pub serve_all : List Request → World → World
  serve_all [] w = w
  serve_all (r ∷ rs) w = serve_all rs (serve r w)

module _ (sha256 : Digest) (casbin : Casbin) (u : User) (request : Option (Option String))
    (w : World) (small : u.id < 2 ^ 128) (found : user_row u.id w.db ≡ some u) where
  cached_me-IsCoherent :
      (o : Option Response) → IsCoherent w → IsCoherent (cached_me sha256 casbin u request o w).1
  cached_me-IsCoherent none h = store_me-IsCoherent sha256 casbin u request w small found h
  cached_me-IsCoherent (some (Response.me out)) h = h
  cached_me-IsCoherent (some (Response.batches_list o l bs)) h =
      store_me-IsCoherent sha256 casbin u request w small found h
  cached_me-IsCoherent (some (Response.batch_detail b ps)) h =
      store_me-IsCoherent sha256 casbin u request w small found h
  cached_me-IsCoherent (some (Response.predictions_recent l ps)) h =
      store_me-IsCoherent sha256 casbin u request w small found h

  me-IsCoherent : IsCoherent w → IsCoherent (me sha256 casbin u request w).1
  unfolding endpoint
  me-IsCoherent h = elim (Bool-cases (permitted casbin w.policy u.role Endpoint.get_me)) [
    | inl t ↦ rw t (cached_me-IsCoherent (w.cache (profile_key u.id)) h)
    | inr f ↦ rw f h
  ]

  -- The stored profile of a coherent cache is the current one.
  cached_me-current :
      (o : Option Response)
      → w.cache (profile_key u.id) ≡ o
      → IsCoherent w
      → (cached_me sha256 casbin u request o w).0 ≡ ok (user_out u)
  cached_me-current none e h = refl
  cached_me-current (some (Response.me out)) e h =
      let (v, row, same) = h u.id (Response.me out) small e in
      let mine : some v ≡ some u = sym row ∙ found in ground arith
  cached_me-current (some (Response.batches_list o l bs)) e h = refl
  cached_me-current (some (Response.batch_detail b ps)) e h = refl
  cached_me-current (some (Response.predictions_recent l ps)) e h = refl

  me-current :
      IsCoherent w
      → (me sha256 casbin u request w).0
        ≡ (endpoint casbin Endpoint.get_me u 200 (λ _. none) (pure (user_out u)) w).0
  unfolding endpoint
  me-current h = elim (Bool-cases (permitted casbin w.policy u.role Endpoint.get_me)) [
    | inl t ↦ rw (t, cached_me-current (w.cache (profile_key u.id)) refl h) refl
    | inr f ↦ rw f refl
  ]

module _ (env : Env) (clear : Clear) (sha256 : Digest) (casbin : Casbin) (h : IsClear clear) where
  view_if :
      (b : Bool) (u : User) (request : Option (Option String)) (w : World)
      → u.id < 2 ^ 128
      → user_row u.id w.db ≡ some u
      → IsCoherent w
      → IsCoherent (view env clear sha256 casbin (if b then some u else none) request w)
  view_if true u request w small found coherent =
      me-IsCoherent sha256 casbin u request w small found coherent
  view_if false u request w small found coherent = coherent

  view-IsCoherent :
      (id : Uuid) (request : Option (Option String)) (w : World) (o : Option User)
      → id < 2 ^ 128
      → user_row id w.db ≡ o
      → IsCoherent w
      → IsCoherent (view env clear sha256 casbin (active o) request w)
  view-IsCoherent id request w none small found coherent = coherent
  view-IsCoherent id request w (some u) small found coherent =
      let same : u.id ≡ id = key-row user_key id u w.db.users found in
      view_if u.is_active u request w (rw same small)
        (ap (λ (x : Uuid). user_row x w.db) same ∙ found) coherent

  serve_all-IsCoherent :
      (rs : List Request) (w : World)
      → All IsUuid rs
      → IsCoherent w
      → IsCoherent (serve_all env clear sha256 casbin rs w)
  unfolding serve_all serve
  serve_all-IsCoherent [] w ids coherent = coherent
  serve_all-IsCoherent (command actor_id c ∷ rs) w ids coherent =
      let w' = (execute env clear actor_id c w).1 in
      serve_all-IsCoherent rs w' ids.1
        (Grown-IsCoherent w w' (execute-effect env clear h actor_id c w) coherent)
  serve_all-IsCoherent (profile id request ∷ rs) w ids coherent =
      serve_all-IsCoherent rs _ ids.1
        (view-IsCoherent id request w (user_row id w.db) ids.0 refl coherent)

  -- After any administrative requests and views of profiles on an empty cache, the profile endpoint
  -- answers an account, whose identifier and those of the earlier callers are UUIDs, as it would
  -- without its cache. `FastAPICache.clear` deletes the keys that extend the namespace by a colon.
  pub me-refines :
      (rs : List Request) (w : World) (id : Uuid) (u : User) (request : Option (Option String))
      → All IsUuid rs
      → id < 2 ^ 128
      → ((key : String) → w.cache key ≡ none)
      → user_row id (serve_all env clear sha256 casbin rs w).db ≡ some u
      → let w' = serve_all env clear sha256 casbin rs w in
        (me sha256 casbin u request w').0
        ≡ (endpoint casbin Endpoint.get_me u 200 (λ _. none) (pure (user_out u)) w').0
  me-refines rs w id u request ids small empty found =
      let w' = serve_all env clear sha256 casbin rs w in
      let same : u.id ≡ id = key-row user_key id u w'.db.users found in
      me-current sha256 casbin u request w' (rw same small)
        (ap (λ (x : Uuid). user_row x w'.db) same ∙ found)
        (serve_all-IsCoherent rs w ids (λ k r b stored. cc (empty (profile_key k))))
