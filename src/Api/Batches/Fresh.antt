-- ===== src/Api/Batches/Fresh.antt =====
-- api/batches.py: the stored detail of a batch after a relabelling.
use Prim.Native.String.{◌++◌ as append}
use text.Mathlib.Text.{starts_with}
use text.Mathlib.TextEquality.{starts_with_iff}
use text.Mathlib.TextLemmas.{append_assoc, append-nil}
use dropsort.Prelude.{
  String, ◌≡◌, refl, ap, ◌∙◌, sym, Bool, true, false, Option, none, some, List, [], ◌∷◌, format,
  uuid_str, if◌then◌else◌,
}
use dropsort.Domain.{Uuid, BatchOut, PredictionOut}
use dropsort.Exec.{Result, ok, err, pure, continue, ◌>>◌}
use dropsort.Session.{Env}
use dropsort.Service.{World, Clear, Cache, Response, begin, clear_cache, detail_namespace}
use dropsort.Service.Thins.{IsClear}
use dropsort.Services.BatchService.{get_batch}
use dropsort.Services.PredictionService.{relabel, relabel_tx}
use dropsort.Api.Batches.{batch_detail_key, cached_detail, store_detail}

-- The key of a batch's detail goes on after the batch's namespace.
detail_key_starts :
    (id : Uuid)
    → starts_with (batch_detail_key id) (format (detail_namespace (uuid_str id) ∷ ":" ∷ [])) ≡ true
detail_key_starts id =
    let u = uuid_str id in
    (starts_with_iff _ _).1 (
      "detail",
      ap (λ (x : String). append (append (append "batches-detail:" x) ":") "detail") (append-nil u)
          ∙ (append_assoc (append "batches-detail:" u) ":" "detail"
              ∙ (append_assoc "batches-detail:" u ":detail"
                  ∙ append_assoc "batches-detail" ":" (append u ":detail"))),
    )

-- A cleared namespace of a batch holds no detail of it, and no other clearing brings it back.
detail_cleared :
    (clear : Clear) (id : Uuid) (cache : Cache)
    → IsClear clear
    → clear (detail_namespace (uuid_str id)) cache (batch_detail_key id) ≡ none
detail_cleared clear id cache h =
    h (detail_namespace (uuid_str id)) cache (batch_detail_key id) ∙ rw (detail_key_starts id) refl

if_none : (b : Bool) (o : Option Response) → o ≡ none → (if b then none else o) ≡ none
if_none true o e = refl
if_none false o e = e

stays_cleared :
    (clear : Clear) (namespace key : String) (cache : Cache)
    → IsClear clear
    → cache key ≡ none
    → clear namespace cache key ≡ none
stays_cleared clear namespace key cache h e =
    h namespace cache key ∙ if_none (starts_with key (format (namespace ∷ ":" ∷ []))) (cache key) e

store_detail-result :
    (id : Uuid) (r : Result (BatchOut × List PredictionOut) × World) → (store_detail id r).0 ≡ r.0
store_detail-result id (ok (b, ps), w) = refl
store_detail-result id (err e, w) = refl

detail_recomputed :
    (id : Uuid) (o : Option Response) (w : World)
    → o ≡ none
    → (cached_detail id o w).0 ≡ (get_batch id w).0
detail_recomputed id none w e = store_detail-result id (get_batch id w)
detail_recomputed id (some r) w e = cc

module _ (env : Env) (clear : Clear) (h : IsClear clear) (pid : Uuid) (new_label : String)
    (actor_id : Uuid) (w w' : World) (out : PredictionOut) where
  after_relabel :
      (r : Result PredictionOut) (v : World)
      → continue r
          (λ updated. do
            clear_cache clear (detail_namespace (uuid_str updated.batch_id))
            clear_cache clear "predictions-recent"
            pure updated)
          v
        ≡ (ok out, w')
      → w'.cache (batch_detail_key out.batch_id) ≡ none
  after_relabel (err x) v e = cc
  after_relabel (ok updated) v e =
      let key = batch_detail_key updated.batch_id in
      let first = clear (detail_namespace (uuid_str updated.batch_id)) v.cache in
      let gone : clear "predictions-recent" first key ≡ none =
        stays_cleared clear "predictions-recent" key first h
          (detail_cleared clear updated.batch_id v.cache h) in
      let same : updated ≡ out = cc in
      let left : record v { cache = clear "predictions-recent" first } ≡ w' = cc in
      rw (sym same, sym left) gone

  -- Where `FastAPICache.clear` deletes the keys that extend the namespace by a colon, and after a
  -- relabelling that returned, the cached detail of the batch is what `get_batch` reads.
  pub relabel-fresh :
      relabel env clear pid new_label actor_id w ≡ (ok out, w')
      → (cached_detail out.batch_id (w'.cache (batch_detail_key out.batch_id)) w').0
        ≡ (get_batch out.batch_id w').0
  unfolding relabel
  relabel-fresh e =
      let (r, v) = begin (relabel_tx env pid new_label actor_id) w in
      detail_recomputed out.batch_id _ w' (after_relabel r v e)
