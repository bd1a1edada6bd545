-- ===== src/Telemetry/World.antt =====
-- The requests of a running proxy: the shared counters and a tracker for each request that was
-- started, in the order of their starts. A step is a call on one of them, in any interleaving.
use llm_universal_proxy.Prelude.{
  ℕ, ◌<◌, ◌≡◌, String, Bool, some, List, [], ◌∷◌, ◌++◌, length, get_elem?, set, u64_max,
}
use llm_universal_proxy.RequestProcessing.{RequestProcessingInfo}
use llm_universal_proxy.Telemetry.{
  RequestOutcome, Metrics, RequestTracker, new_metrics, start_request, set_upstream,
  set_request_processing, finish_with, drop,
}

pub record World : Type 0 where
  pub metrics : Metrics
  pub trackers : List RequestTracker

abbrev pub new_world : World
new_world = record { metrics = new_metrics; trackers = [] }

-- The world after a call changed the counters and the tracker at `i`.
abbrev pub changed : World → ℕ → Metrics × RequestTracker → World
changed w i r = record { metrics = r.0; trackers = set w.trackers i r.1 }

-- The proxy starts fewer than 2⁶⁴ requests.
pub data Step : World → World → Type 0 where
  start :
      (w : World) (path client_model : String) (stream : Bool)
      → length w.trackers < u64_max
      → Step w (record {
        metrics = (start_request path client_model stream w.metrics).0;
        trackers = w.trackers ++ (start_request path client_model stream w.metrics).1 ∷ [];
      })
  route :
      (w : World) (i : ℕ) (t : RequestTracker) (name model : String)
      → get_elem? w.trackers i ≡ some t
      → Step w (changed w i (set_upstream name model w.metrics t))
  annotate :
      (w : World) (i : ℕ) (t : RequestTracker) (info : RequestProcessingInfo)
      → get_elem? w.trackers i ≡ some t
      → Step w (changed w i (w.metrics, set_request_processing info t))
  finish :
      (w : World) (i : ℕ) (t : RequestTracker) (outcome : RequestOutcome) (status duration : ℕ)
      → get_elem? w.trackers i ≡ some t
      → Step w (changed w i (finish_with outcome status duration w.metrics t))
  drop_tracker :
      (w : World) (i : ℕ) (t : RequestTracker) (duration : ℕ)
      → get_elem? w.trackers i ≡ some t
      → Step w (changed w i (drop duration w.metrics t))

pub data Reach : World → Type 0 where
  here : Reach new_world
  next : {w w' : World} → Reach w → Step w w' → Reach w'
