-- ===== src/Api/Predictions/Overlay.antt =====
-- api/predictions.py: the overlay image of a prediction.
use mathlib.Core.Option
use dropsort.Prelude.{
  String, ◌≡◌, ◌≢◌, ◌↔◌, refl, sym, ap, ◌∙◌, true, false, Option, none, some, [], ◌∷◌, format,
  str_eq, eq_iff, if◌then◌else◌, Bool-cases, Option-cases, inl, inr, arith,
}
use dropsort.Domain.{Uuid, PredictionOut}
use dropsort.Db.{User, Prediction}
use dropsort.Db.Tables.{row}
use dropsort.Exec.{Exc, Result, ok, err}
use dropsort.Session.{Env}
use dropsort.Service.{World, Bytes, StoredObject, query}
use dropsort.Infra.{download_bytes, found_object}
use dropsort.Repositories.Predictions.{prediction_out, get_by_id}
use dropsort.Access.{Casbin, Endpoint, permitted}
use dropsort.Api.{Reply, sent, refused, crashed}

module _ (env : Env) (exc_text : Exc → String) where
  abbrev loaded : Result Bytes × World → Reply Bytes × World
  loaded (ok content, w) = (sent 200 content, w)
  loaded (err e, w) = (refused 502 (format ("Could not load overlay: " ∷ exc_text e ∷ [])), w)

  -- `if not prediction.minio_overlay_key`
  abbrev keyed : Option String → World → Reply Bytes × World
  keyed none w = (refused 404 "Overlay not available yet", w)
  keyed (some key) w =
      if str_eq key ""
      then (refused 404 "Overlay not available yet", w)
      else loaded (download_bytes env key w)

  abbrev overlay_of : Result (Option PredictionOut) × World → Reply Bytes × World
  overlay_of (err e, w) = (crashed e, w)
  overlay_of (ok none, w) = (refused 404 "Prediction not found", w)
  overlay_of (ok (some p), w) = keyed p.minio_overlay_key w

  module _ (casbin : Casbin) (user : User) where
    unfoldable pub get_prediction_overlay : Uuid → World → Reply Bytes × World
    get_prediction_overlay prediction_id w =
        if permitted casbin w.policy user.role Endpoint.get_overlay
        then overlay_of (query (get_by_id prediction_id) w)
        else (refused 403 "Permission denied", w)

-- The image that a prediction leads to: its key is not empty, and an object is stored under it.
abbrev pub HasOverlay : Uuid → Bytes → World → Type 0
HasOverlay id content w =
    (p : Prediction) × (key : String) × (o : StoredObject) × (row (λ (q : Prediction). q.id) id
        w.db.predictions
      ≡ some p)
    × (p.minio_overlay_key ≡ some key)
    × (key ≢ "")
    × (found_object key w ≡ some o)
    × (o.content ≡ content)

module _ (env : Env) (exc_text : Exc → String) (casbin : Casbin) (user : User) (id : Uuid)
    (w : World) where
  module _ (content : Bytes) (up : env.fails w.draws ≡ false) where
    download_iff :
        (key : String)
        → ((loaded env exc_text (download_bytes env key w)).0 ≡ sent 200 content)
          ↔ ((o : StoredObject) × (found_object key w ≡ some o) × (o.content ≡ content))
    unfolding download_bytes
    download_iff key = elim (Option-cases (found_object key w)) [
      | inl e ↦ rw (up, e) ((λ h. cc), (λ h. cc (h.1)))
      | inr (o, e) ↦ rw (up, e) ((λ h. (o, refl, ground arith)), (λ h. ground arith))
    ]

    keyed_iff :
        (o : Option String)
        → ((keyed env exc_text o w).0 ≡ sent 200 content) ↔ (
            (key : String) × (f : StoredObject) × (o ≡ some key)
            × (key ≢ "")
            × (found_object key w ≡ some f)
            × (f.content ≡ content))
    keyed_iff none = ((λ h. cc), (λ h. cc (h.2)))
    keyed_iff (some key) = elim (Bool-cases (str_eq key "")) [
      | inl t ↦ rw t (
        (λ h. cc),
        (λ (k, f, same, ne, found, e).
            let one : key ≡ k = cc in absurd (ne (sym one ∙ (eq_iff key "").0 t))),
      )
      | inr n ↦
          let (to, from) = download_iff key in
          rw n (
            (λ h.
                let (f, found, e) = to h in
                (key, f, refl, (λ x. ground (arith, eq_iff key "")), found, e)),
            (λ (k, f, same, ne, found, e).
                let one : key ≡ k = cc in
                from (f, ap (λ (x : String). found_object x w) one ∙ found, e)),
          )
    ]

    answer_iff :
        (o : Option Prediction)
        → row (λ (q : Prediction). q.id) id w.db.predictions ≡ o
        → ((overlay_of env exc_text (ok (Option.map prediction_out o), w)).0 ≡ sent 200 content)
          ↔ HasOverlay id content w
    answer_iff none r = ((λ h. cc), (λ h. cc (h.3)))
    answer_iff (some p) r =
        let (to, from) = keyed_iff p.minio_overlay_key in
        (
          λ h. let (key, f, k, ne, found, e) = to h in (p, key, f, r, k, ne, found, e),
          λ (q, key, f, here, k, ne, found, e).
              let same : q ≡ p = ground arith in
              from
                (key, f, ap (λ (x : Prediction). x.minio_overlay_key) (sym same) ∙ k, ne, found, e),
        )

  -- For a caller who may see overlays and a bucket that answers, the endpoint sends a content exactly
  -- where the prediction is there with a key that is not empty, and that key has the content.
  pub overlay_iff :
      (content : Bytes)
      → permitted casbin w.policy user.role Endpoint.get_overlay ≡ true
      → env.fails w.draws ≡ false
      → ((get_prediction_overlay env exc_text casbin user id w).0 ≡ sent 200 content)
        ↔ HasOverlay id content w
  unfolding get_prediction_overlay query
  overlay_iff content may up =
      rw may (answer_iff content up (row (λ (q : Prediction). q.id) id w.db.predictions) refl)
