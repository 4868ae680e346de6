-- ===== src/System/Recent/Refines.antt =====
-- The endpoint for recent predictions after any order of events and views.
use dropsort.Prelude.{
  ℕ, String, ◌≡◌, inl, inr, refl, Option, none, some, List, [], ◌∷◌, str_eq, eq_iff, if◌then◌else◌,
  Bool-cases, arith,
}
use dropsort.Db.{User}
use dropsort.Db.Invariant.{IsValid}
use dropsort.Exec.{ok}
use dropsort.Service.{World, Response, query, predictions_recent, me, batches_list, batch_detail}
use dropsort.Service.Thins.{IsClear}
use dropsort.Repositories.Predictions
use dropsort.Services.PredictionService.{list_recent}
use dropsort.System.{Event, Setting, perform}
use dropsort.System.Validity.{perform-IsValid}
use dropsort.System.Recent.{IsListKey, recent_rows, IsCurrent}
use dropsort.System.Recent.Kept.{perform-IsCurrent}
use dropsort.Access.{Casbin, Endpoint, permitted}
use dropsort.Api.{endpoint}
use dropsort.Api.Listings.{ListKey, recent_key, cached_recent, list_recent_endpoint}

-- An event of the program, or a view of the list by a user.
pub data Visit : Type 0 where
  event : Event → Visit
  view : User → ℕ → Visit

module _ (c : Setting) (list_key : ListKey) (casbin : Casbin) where
  unfoldable pub visit : Visit → World → World
  visit (event e) w = perform c e w
  visit (view user limit) w = (list_recent_endpoint list_key casbin user limit w).1

  unfoldable pub visit_all : List Visit → World → World
  visit_all [] w = w
  visit_all (v ∷ vs) w = visit_all vs (visit v w)

module _ (list_key : ListKey) (limit : ℕ) (w : World) where
  -- What the endpoint computes where nothing is stored.
  list_recent_lem : list_recent limit w ≡ (ok (recent_rows limit w.db.predictions), w)
  unfolding list_recent query Predictions.list_recent
  list_recent_lem = refl

  remembered : World
  remembered = record w {
    cache = λ key.
        if str_eq key (recent_key list_key limit)
        then some (predictions_recent limit (recent_rows limit w.db.predictions))
        else w.cache key;
  }

  remembered-IsCurrent : IsListKey list_key → IsCurrent list_key w → IsCurrent list_key remembered
  unfolding remembered
  remembered-IsCurrent k h n r e =
      elim (Bool-cases (str_eq (recent_key list_key n) (recent_key list_key limit))) [
        | inl t ↦
            let args = k.distinct "predictions-recent" _ _ ((eq_iff _ _).0 t) in
            let same : n ≡ limit = cc in
            let stored : some (predictions_recent limit (recent_rows limit w.db.predictions))
                ≡ some r =
              rw t at e in
            rw same (cc)
        | inr f ↦ h n r (rw f at e)
      ]

  cached_recent-IsCurrent :
      (o : Option Response)
      → IsListKey list_key
      → IsCurrent list_key w
      → IsCurrent list_key (cached_recent list_key limit o w).1
  unfolding remembered
  cached_recent-IsCurrent (some (predictions_recent n preds)) k h = h
  cached_recent-IsCurrent none k h = rw list_recent_lem (remembered-IsCurrent k h)
  cached_recent-IsCurrent (some (me out)) k h = rw list_recent_lem (remembered-IsCurrent k h)
  cached_recent-IsCurrent (some (batches_list n l batches)) k h =
      rw list_recent_lem (remembered-IsCurrent k h)
  cached_recent-IsCurrent (some (batch_detail batch preds)) k h =
      rw list_recent_lem (remembered-IsCurrent k h)

  -- A stored list that is current is what the table gives.
  cached_recent-current :
      (o : Option Response)
      → w.cache (recent_key list_key limit) ≡ o
      → IsCurrent list_key w
      → (cached_recent list_key limit o w).0 ≡ (list_recent limit w).0
  cached_recent-current (some (predictions_recent n preds)) e h =
      let same = h limit (predictions_recent n preds) e in rw list_recent_lem (ground arith)
  cached_recent-current none e h = rw list_recent_lem refl
  cached_recent-current (some (me out)) e h = rw list_recent_lem refl
  cached_recent-current (some (batches_list n l batches)) e h = rw list_recent_lem refl
  cached_recent-current (some (batch_detail batch preds)) e h = rw list_recent_lem refl

  cached_recent-db : (o : Option Response) → (cached_recent list_key limit o w).1.db ≡ w.db
  cached_recent-db (some (predictions_recent n preds)) = refl
  cached_recent-db none = rw list_recent_lem refl
  cached_recent-db (some (me out)) = rw list_recent_lem refl
  cached_recent-db (some (batches_list n l batches)) = rw list_recent_lem refl
  cached_recent-db (some (batch_detail batch preds)) = rw list_recent_lem refl

  module _ (casbin : Casbin) (user : User) where
    endpoint-IsCurrent :
        IsListKey list_key
        → IsCurrent list_key w
        → IsCurrent list_key (list_recent_endpoint list_key casbin user limit w).1
    unfolding endpoint
    endpoint-IsCurrent k h =
        elim (Bool-cases (permitted casbin w.policy user.role Endpoint.list_recent)) [
          | inl t ↦ rw t (cached_recent-IsCurrent (w.cache (recent_key list_key limit)) k h)
          | inr f ↦ rw f h
        ]

    endpoint-current :
        IsCurrent list_key w
        → (list_recent_endpoint list_key casbin user limit w).0
          ≡ (endpoint casbin Endpoint.list_recent user 200 (λ _. none) (list_recent limit) w).0
    unfolding endpoint
    endpoint-current h =
        elim (Bool-cases (permitted casbin w.policy user.role Endpoint.list_recent)) [
          | inl t ↦ rw (t, cached_recent-current (w.cache (recent_key list_key limit)) refl h) refl
          | inr f ↦ rw f refl
        ]

    -- A view leaves the tables.
    endpoint-db : (list_recent_endpoint list_key casbin user limit w).1.db ≡ w.db
    unfolding endpoint
    endpoint-db = elim (Bool-cases (permitted casbin w.policy user.role Endpoint.list_recent)) [
      | inl t ↦ rw t (cached_recent-db (w.cache (recent_key list_key limit)))
      | inr f ↦ rw f refl
    ]

module _ (c : Setting) (list_key : ListKey) (casbin : Casbin) (h : IsClear c.clear)
    (k : IsListKey list_key) where
  visit_all-IsCurrent :
      (vs : List Visit) (w : World)
      → IsValid w.db
      → IsCurrent list_key w
      → IsCurrent list_key (visit_all c list_key casbin vs w)
  unfolding visit_all visit
  visit_all-IsCurrent [] w valid current = current
  visit_all-IsCurrent (event e ∷ vs) w valid current =
      visit_all-IsCurrent vs (perform c e w) (perform-IsValid c e w valid)
        (perform-IsCurrent c list_key k h e w valid current)
  visit_all-IsCurrent (view user limit ∷ vs) w valid current =
      visit_all-IsCurrent vs (list_recent_endpoint list_key casbin user limit w).1
        (rw (endpoint-db list_key limit w casbin user) valid)
        (endpoint-IsCurrent list_key limit w casbin user k current)

  -- After any requests, calls of the workers and views of the list, from valid tables and an empty
  -- cache, the endpoint for recent predictions answers as it would without its cache.
  -- `FastAPICache.clear` deletes the keys that extend the namespace by a colon, and the keys of
  -- fastapi-cache do that and differ for different limits.
  pub recent-refines :
      (vs : List Visit) (w : World) (user : User) (limit : ℕ)
      → IsValid w.db
      → ((key : String) → w.cache key ≡ none)
      → let v = visit_all c list_key casbin vs w in
        (list_recent_endpoint list_key casbin user limit v).0
        ≡ (endpoint casbin Endpoint.list_recent user 200 (λ _. none) (list_recent limit) v).0
  recent-refines vs w user limit valid empty =
      endpoint-current list_key limit (visit_all c list_key casbin vs w) casbin user
        (visit_all-IsCurrent vs w valid (λ n r e. cc (empty (recent_key list_key n))))
