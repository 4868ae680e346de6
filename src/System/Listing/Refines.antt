-- ===== src/System/Listing/Refines.antt =====
-- The endpoint for the list of batches after any order of events and views.
use dropsort.Prelude.{
  ℕ, String, ◌≡◌, inl, inr, refl, Option, none, some, List, [], ◌∷◌, str_eq, eq_iff, if◌then◌else◌,
  Bool-cases, arith,
}
use dropsort.Db.{User}
use dropsort.Db.Invariant.{IsValid}
use dropsort.Exec.{ok}
use dropsort.Service.{World, Response, query, predictions_recent, me, batches_list, batch_detail}
use dropsort.Service.Thins.{IsClear}
use dropsort.Infra.{IsUp}
use dropsort.Repositories.Batches
use dropsort.Services.BatchService.{list_batches}
use dropsort.System.{Event, Setting, perform}
use dropsort.System.Validity.{perform-IsValid}
use dropsort.System.Recent.{IsListKey}
use dropsort.System.Listing.{batch_rows, IsCurrent}
use dropsort.System.Listing.Kept.{perform-IsCurrent}
use dropsort.Access.{Casbin, Endpoint, permitted}
use dropsort.Api.{endpoint}
use dropsort.Api.Listings.{ListKey, batches_key, cached_batches, list_batches_endpoint}

-- An event of the program, or a view of a part of the list by a user.
pub data Visit : Type 0 where
  event : Event → Visit
  view : User → ℕ → ℕ → Visit

module _ (c : Setting) (list_key : ListKey) (casbin : Casbin) where
  unfoldable pub visit : Visit → World → World
  visit (event e) w = perform c e w
  visit (view user offset limit) w = (list_batches_endpoint list_key casbin user offset limit w).1

  unfoldable pub visit_all : List Visit → World → World
  visit_all [] w = w
  visit_all (v ∷ vs) w = visit_all vs (visit v w)

module _ (list_key : ListKey) (offset limit : ℕ) (w : World) where
  list_batches_lem : list_batches offset limit w ≡ (ok (batch_rows offset limit w.db), w)
  unfolding list_batches query Batches.list_paginated
  list_batches_lem = refl

  remembered : World
  remembered = record w {
    cache = λ key.
        if str_eq key (batches_key list_key offset limit)
        then some (batches_list offset limit (batch_rows offset limit w.db))
        else w.cache key;
  }

  remembered-IsCurrent : IsListKey list_key → IsCurrent list_key w → IsCurrent list_key remembered
  unfolding remembered
  remembered-IsCurrent k h o l r e =
      elim (Bool-cases (str_eq (batches_key list_key o l) (batches_key list_key offset limit))) [
        | inl t ↦
            let args = k.distinct "batches-list" _ _ ((eq_iff _ _).0 t) in
            let first : o ≡ offset = cc in
            let second : l ≡ limit = cc in
            let stored : some (batches_list offset limit (batch_rows offset limit w.db)) ≡ some r =
              rw t at e in
            rw (first, second) (cc)
        | inr f ↦ h o l r (rw f at e)
      ]

  -- A stored list is left, and a new one is what the tables say.
  cached_batches-IsCurrent :
      (r : Option Response)
      → IsListKey list_key
      → IsCurrent list_key w
      → IsCurrent list_key (cached_batches list_key offset limit r w).1
  unfolding remembered
  cached_batches-IsCurrent (some (batches_list o l batches)) k h = h
  cached_batches-IsCurrent none k h = rw list_batches_lem (remembered-IsCurrent k h)
  cached_batches-IsCurrent (some (me out)) k h = rw list_batches_lem (remembered-IsCurrent k h)
  cached_batches-IsCurrent (some (predictions_recent n preds)) k h =
      rw list_batches_lem (remembered-IsCurrent k h)
  cached_batches-IsCurrent (some (batch_detail batch preds)) k h =
      rw list_batches_lem (remembered-IsCurrent k h)

  -- Either way the answer is the list, and the tables stay.
  cached_batches_lem :
      (r : Option Response)
      → w.cache (batches_key list_key offset limit) ≡ r
      → IsCurrent list_key w
      → let (answer, w') = cached_batches list_key offset limit r w in
        (answer ≡ ok (batch_rows offset limit w.db)) × (w'.db ≡ w.db)
  cached_batches_lem (some (batches_list o l batches)) e h =
      let same = h offset limit (batches_list o l batches) e in (ground arith, refl)
  cached_batches_lem none e h = rw list_batches_lem (refl, refl)
  cached_batches_lem (some (me out)) e h = rw list_batches_lem (refl, refl)
  cached_batches_lem (some (predictions_recent n preds)) e h = rw list_batches_lem (refl, refl)
  cached_batches_lem (some (batch_detail batch preds)) e h = rw list_batches_lem (refl, refl)

  module _ (casbin : Casbin) (user : User) (k : IsListKey list_key) (h : IsCurrent list_key w) where
    stored : Option Response
    stored = w.cache (batches_key list_key offset limit)

    endpoint-IsCurrent :
        IsCurrent list_key (list_batches_endpoint list_key casbin user offset limit w).1
    unfolding endpoint stored
    endpoint-IsCurrent =
        elim (Bool-cases (permitted casbin w.policy user.role Endpoint.list_batches)) [
          | inl t ↦ rw t (cached_batches-IsCurrent stored k h)
          | inr f ↦ rw f h
        ]

    endpoint_lem :
        let (answer, w') = list_batches_endpoint list_key casbin user offset limit w in
        (answer
          ≡ (endpoint casbin Endpoint.list_batches user 200
              (λ _. none)
              (list_batches offset limit)
              w).0)
        × (w'.db ≡ w.db)
    unfolding endpoint stored
    endpoint_lem = elim (Bool-cases (permitted casbin w.policy user.role Endpoint.list_batches)) [
      | inl t ↦
          let (answer, db) = cached_batches_lem stored refl h in
          rw (t, answer, list_batches_lem) (refl, db)
      | inr f ↦ rw f (refl, refl)
    ]

module _ (c : Setting) (list_key : ListKey) (casbin : Casbin) (h : IsClear c.clear)
    (k : IsListKey list_key) (up : IsUp c.env) where
  visit_all-IsCurrent :
      (vs : List Visit) (w : World)
      → IsValid w.db
      → IsCurrent list_key w
      → IsCurrent list_key (visit_all c list_key casbin vs w)
  unfolding visit_all visit
  visit_all-IsCurrent [] w valid current = current
  visit_all-IsCurrent (event e ∷ vs) w valid current =
      visit_all-IsCurrent vs (perform c e w) (perform-IsValid c e w valid)
        (perform-IsCurrent c list_key k h up e w valid current)
  visit_all-IsCurrent (view user offset limit ∷ vs) w valid current =
      visit_all-IsCurrent vs (list_batches_endpoint list_key casbin user offset limit w).1
        (rw (endpoint_lem list_key offset limit w casbin user k current).1 valid)
        (endpoint-IsCurrent list_key offset limit w casbin user k current)

  -- Where no call of SFTP, MinIO and Redis fails: after any requests, calls of the workers and views of
  -- the list, from valid tables and an empty cache, the endpoint for the list of batches answers as it
  -- would without its cache. `FastAPICache.clear` deletes the keys that extend the namespace by a
  -- colon, and the keys of fastapi-cache do that and differ for different arguments.
  pub batches-refines :
      (vs : List Visit) (w : World) (user : User) (offset limit : ℕ)
      → IsValid w.db
      → ((key : String) → w.cache key ≡ none)
      → let v = visit_all c list_key casbin vs w in
        (list_batches_endpoint list_key casbin user offset limit v).0
        ≡ (endpoint casbin Endpoint.list_batches user 200
            (λ _. none)
            (list_batches offset limit)
            v).0
  batches-refines vs w user offset limit valid empty =
      (endpoint_lem list_key offset limit (visit_all c list_key casbin vs w) casbin user k
        (visit_all-IsCurrent vs w valid (λ o l r e. cc (empty (batches_key list_key o l))))).0
