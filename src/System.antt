-- ===== src/System.antt =====
-- The program as a whole: what the API and the workers do to the state, one request or job at a time.
pub mod Validity
pub mod AppendOnly
pub mod Settled
pub mod Untouched
pub mod Confident
pub mod Recent
pub mod Listing
use dropsort.Prelude.{ℕ, String}
use dropsort.Domain.{Uuid}
use dropsort.Session.{Env}
use dropsort.Service.{World, Clear, Bytes}
use dropsort.Pipeline.{Content}
use dropsort.Repositories.Predictions.{NewPrediction}
use dropsort.Services.UserService.History.{Command, execute}
use dropsort.Services.PredictionService.{record_prediction, relabel, mark_batch_failed}
use dropsort.Services.BatchUploadService.{enqueue_browser_tiff}
use dropsort.Workers.SftpIngest.{ingest_once}

-- The requests of app/api that write, and the calls of the workers.
pub data Event : Type 0 where
  administered : Uuid → Command → Event
  relabelling : Uuid → String → Uuid → Event
  upload : Bytes → String → Event
  recording : String → NewPrediction → Event
  failure : String → String → String → Event
  round : Event

-- What the program is run with: the runtime, the cache, hashing and imaging, and the size limit.
pub record Setting : Type 0 where
  pub env : Env
  pub clear : Clear
  pub content : Content
  pub max_mb : ℕ

module _ (c : Setting) where
  unfoldable pub perform : Event → World → World
  perform (administered actor_id command) w = (execute c.env c.clear actor_id command w).1
  perform (relabelling pid new_label actor_id) w =
      (relabel c.env c.clear pid new_label actor_id w).1
  perform (upload bytes filename) w =
      (enqueue_browser_tiff c.env c.clear c.content c.max_mb bytes filename w).1
  perform (recording external_id args) w = (record_prediction c.env c.clear external_id args w).1
  perform (failure external_id filename reason) w =
      (mark_batch_failed c.env c.clear external_id filename reason w).1
  perform round w = (ingest_once c.env c.content c.max_mb w).1

  -- The states that can follow a state, in any order of events.
  pub data Reachable (w : World) : World → Type 0 where
    start : Reachable w w
    next : {v : World} → Reachable w v → (e : Event) → Reachable w (perform e v)

  -- What every event keeps, every reachable state has.
  pub Reachable-keeps :
      (P : World → Type 0)
      → ((e : Event) (v : World) → P v → P (perform e v))
      → (w v : World) → Reachable w v
      → P w
      → P v
  Reachable-keeps P f w v start h = h
  Reachable-keeps P f w v (next {v = u} r e) h = f e u (Reachable-keeps P f w u r h)
