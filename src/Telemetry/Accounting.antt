-- ===== src/Telemetry/Accounting.antt =====
-- The counters agree with the trackers: nothing is counted twice, lost, or left open.
use llm_universal_proxy.Prelude.{
  branches, ℕ, ◌+◌, ◌-◌, ◌≤◌, ◌<◌, ◌≡◌, refl, String, Bool, true, false, not, ◌&&◌, some, [], ◌∷◌,
  ◌++◌, length, get_elem?, length-set, length-append, length-take, count_by, count_by-append,
  count_by-set, count_by-le, u64_max, arith,
}
use llm_universal_proxy.Telemetry.{
  push_recent, is_text, add_if, is_success, is_error, is_cancelled, RequestOutcome, cancelled,
  Metrics, RequestTracker, start_request, set_upstream, set_request_processing, finish_with,
  finish_cancelled, drop, max_recent_requests,
}
use llm_universal_proxy.Telemetry.World.{
  World, changed, Step, start, route, annotate, finish, drop_tracker, Reach, here, next,
}

abbrev pub is_open : RequestTracker → Bool
is_open t = not t.finished

abbrev pub is_open_stream : RequestTracker → Bool
is_open_stream t = t.stream && not t.finished

pub record IsAccounted (w : World) : Type 0 where
  pub room : length w.trackers ≤ u64_max
  pub total : w.metrics.total_requests ≡ length w.trackers
  pub active : w.metrics.active_requests ≡ count_by is_open w.trackers
  pub total_stream : w.metrics.total_stream_requests ≡ count_by (λ t. t.stream) w.trackers
  pub active_stream : w.metrics.active_stream_requests ≡ count_by is_open_stream w.trackers
  pub settled :
      w.metrics.total_requests
      ≡ w.metrics.active_requests + w.metrics.success_responses + w.metrics.error_responses
        + w.metrics.cancelled_responses
  pub recent : length w.metrics.recent_requests ≤ max_recent_requests

module _ (w : World) (v : IsAccounted w) where
  start-IsAccounted :
      (path client_model : String) (stream : Bool)
      → length w.trackers < u64_max
      → IsAccounted (record {
        metrics = (start_request path client_model stream w.metrics).0;
        trackers = w.trackers ++ (start_request path client_model stream w.metrics).1 ∷ [];
      })
  unfolding start_request
  start-IsAccounted path client_model stream lt =
      let t = (start_request path client_model stream w.metrics).1 in
      record {
        room = omega (arith, length-append w.trackers (t ∷ []));
        total = ground (arith, v, length-append w.trackers (t ∷ []));
        active = ground (
          arith,
          v.room,
          v.active,
          count_by-append is_open w.trackers (t ∷ []),
          count_by-le is_open w.trackers,
        );
        total_stream = ground (
          arith,
          v.room,
          v.total_stream,
          count_by-append (λ u. u.stream) w.trackers (t ∷ []),
          count_by-le (λ u. u.stream) w.trackers,
        );
        active_stream = ground (
          arith,
          v.room,
          v.active_stream,
          count_by-append is_open_stream w.trackers (t ∷ []),
          count_by-le is_open_stream w.trackers,
        );
        settled = ground (arith, v);
        recent = v.recent;
      }

  module _ (i : ℕ) (t : RequestTracker) (at : get_elem? w.trackers i ≡ some t) where
    -- A call that changes neither the counters that are summed nor what the trackers add to them.
    quiet-IsAccounted :
        (m : Metrics) (t' : RequestTracker)
        → m ≡ record w.metrics { per_upstream = m.per_upstream }
        → t'.finished ≡ t.finished
        → t'.stream ≡ t.stream
        → IsAccounted (changed w i (m, t'))
    quiet-IsAccounted m t' same f s = rw same (record {
      room = rw (length-set w.trackers i t') v.room;
      total = rw (length-set w.trackers i t') v.total;
      active = ground (arith, v.active, count_by-set is_open w.trackers i t t');
      total_stream = ground (arith, v.total_stream, count_by-set (λ u. u.stream) w.trackers i t t');
      active_stream =
          ground (arith, v.active_stream, count_by-set is_open_stream w.trackers i t t');
      settled = v.settled;
      recent = v.recent;
    })

    finish-IsAccounted :
        (outcome : RequestOutcome) (status duration : ℕ)
        → IsAccounted (changed w i (finish_with outcome status duration w.metrics t))
    unfolding finish_with push_recent
    finish-IsAccounted outcome status duration =
        let done : RequestTracker = record t { finished = true } in
        branches (λ r. IsAccounted (changed w i r)) t.finished
          (λ _. quiet-IsAccounted w.metrics t refl refl refl)
          (λ e. record {
            room = rw (length-set w.trackers i done) v.room;
            total = rw (length-set w.trackers i done) v.total;
            active = ground (arith, v.active, count_by-set is_open w.trackers i t done);
            total_stream =
                ground (arith, v.total_stream, count_by-set (λ u. u.stream) w.trackers i t done);
            active_stream =
                ground (arith, v.active_stream, count_by-set is_open_stream w.trackers i t done);
            settled = settled_once outcome e;
            recent = omega (arith, length-take 11 w.metrics.recent_requests);
          })
      where
        settled_once :
            (outcome : RequestOutcome)
            → t.finished ≡ false
            → w.metrics.total_requests
              ≡ (w.metrics.active_requests - 1)
                + add_if (is_success outcome) w.metrics.success_responses
                + add_if (is_error outcome) w.metrics.error_responses
                + add_if (is_cancelled outcome) w.metrics.cancelled_responses
        settled_once o e =
            let bound : w.metrics.total_requests ≤ u64_max = omega (arith, v.total, v.room) in
            let some_open : 1 ≤ w.metrics.active_requests = ground (
              arith,
              v.active,
              count_by-set is_open w.trackers i t (record t { finished = true }),
            ) in
            ground (arith, v.settled)

Step-IsAccounted : {w w' : World} → IsAccounted w → Step w w' → IsAccounted w'
unfolding set_upstream set_request_processing drop finish_cancelled
Step-IsAccounted v (start w path client_model stream lt) =
    start-IsAccounted w v path client_model stream lt
Step-IsAccounted v (route w i t name model at) =
    branches (λ r. IsAccounted (changed w i r))
      (is_text t.upstream_name name && is_text t.upstream_model model)
      (λ _. quiet-IsAccounted w v i t at w.metrics t refl refl refl)
      (λ _. quiet-IsAccounted w v i t at _ _ refl refl refl)
Step-IsAccounted v (annotate w i t info at) =
    quiet-IsAccounted w v i t at w.metrics (record t { llmup = info }) refl refl refl
Step-IsAccounted v (finish w i t outcome status duration at) =
    finish-IsAccounted w v i t at outcome status duration
Step-IsAccounted v (drop_tracker w i t duration at) =
    branches (λ r. IsAccounted (changed w i r)) t.finished
      (λ _. quiet-IsAccounted w v i t at w.metrics t refl refl refl)
      (λ _. finish-IsAccounted w v i t at cancelled 499 duration)

-- At each point of each run that starts fewer than 2⁶⁴ requests, `total_requests` is the number of
-- requests that were started, `active_requests` and `active_stream_requests` are those whose
-- tracker is not finished, each started request is active or counted under exactly one outcome, and
-- the list of recent requests keeps its bound.
pub Reach-IsAccounted : {w : World} → Reach w → IsAccounted w
Reach-IsAccounted here = record {
  room = ground arith;
  total = refl;
  active = refl;
  total_stream = refl;
  active_stream = refl;
  settled = refl;
  recent = ground arith;
}
Reach-IsAccounted (next r s) = Step-IsAccounted (Reach-IsAccounted r) s
