-- ===== src/Telemetry.antt =====
-- src/telemetry.rs: the counters of the dashboard and the tracker of a request. The mutex makes
-- each call one step on the counters; a duration is an argument. All counters are `u64` and
-- saturate.
pub mod World
pub mod Accounting
use llm_universal_proxy.Prelude.{
  ℕ, ◌-◌, String, Bool, true, false, ◌&&◌, Option, none, some, List, [], ◌∷◌, take, str_eq,
  saturating_add, if◌then◌else◌,
}
use llm_universal_proxy.Prelude.Map
use llm_universal_proxy.Prelude.Map.{Map}
use llm_universal_proxy.RequestProcessing.{RequestProcessingInfo, default_info}

pub data RequestOutcome : Type 0 where
  success error cancelled : RequestOutcome

pub record UpstreamMetrics : Type 0 where
  pub total_requests : ℕ
  pub active_requests : ℕ
  pub success_responses : ℕ
  pub error_responses : ℕ
  pub cancelled_responses : ℕ
  pub stream_requests : ℕ

pub record RecentRequest : Type 0 where
  pub path : String
  pub client_model : String
  pub upstream_name : Option String
  pub upstream_model : Option String
  pub stream : Bool
  pub status : ℕ
  pub outcome : RequestOutcome
  pub duration_ms : ℕ
  pub llmup : RequestProcessingInfo

-- `MetricsInner`
pub record Metrics : Type 0 where
  pub total_requests : ℕ
  pub active_requests : ℕ
  pub total_stream_requests : ℕ
  pub active_stream_requests : ℕ
  pub success_responses : ℕ
  pub error_responses : ℕ
  pub cancelled_responses : ℕ
  pub per_upstream : Map UpstreamMetrics
  pub recent_requests : List RecentRequest

pub record RequestTracker : Type 0 where
  pub path : String
  pub client_model : String
  pub upstream_name : Option String
  pub upstream_model : Option String
  pub stream : Bool
  pub llmup : RequestProcessingInfo
  pub finished : Bool

abbrev pub max_recent_requests : ℕ
max_recent_requests = 12

abbrev pub new_upstream : UpstreamMetrics
new_upstream = record {
  total_requests = 0;
  active_requests = 0;
  success_responses = 0;
  error_responses = 0;
  cancelled_responses = 0;
  stream_requests = 0;
}

-- `RuntimeMetrics::new`
abbrev pub new_metrics : Metrics
new_metrics = record {
  total_requests = 0;
  active_requests = 0;
  total_stream_requests = 0;
  active_stream_requests = 0;
  success_responses = 0;
  error_responses = 0;
  cancelled_responses = 0;
  per_upstream = [];
  recent_requests = [];
}

abbrev add_if : Bool → ℕ → ℕ
add_if b n = if b then saturating_add n 1 else n

abbrev sub_if : Bool → ℕ → ℕ
sub_if b n = if b then n - 1 else n

unfoldable pub start_request : String → String → Bool → Metrics → Metrics × RequestTracker
start_request path client_model stream m = (
  record m {
    total_requests = saturating_add m.total_requests 1;
    active_requests = saturating_add m.active_requests 1;
    total_stream_requests = add_if stream m.total_stream_requests;
    active_stream_requests = add_if stream m.active_stream_requests;
  },
  record {
    path = path;
    client_model = client_model;
    upstream_name = none;
    upstream_model = none;
    stream = stream;
    llmup = default_info;
    finished = false;
  },
)

abbrev is_text : Option String → String → Bool
is_text none t = false
is_text (some s) t = str_eq s t

-- `if let Some(entry) = per_upstream.get_mut(name)`: `f` changes the entry.
change_found :
    String
    → (UpstreamMetrics → UpstreamMetrics)
    → Map UpstreamMetrics
    → Option UpstreamMetrics
    → Map UpstreamMetrics
change_found name f m none = m
change_found name f m (some u) = Map.insert name (f u) m

pub change :
    String → (UpstreamMetrics → UpstreamMetrics) → Map UpstreamMetrics → Map UpstreamMetrics
unfolding change_found
change name f m = change_found name f m (Map.get name m)

abbrev leave : UpstreamMetrics → UpstreamMetrics
leave u = record u { active_requests = u.active_requests - 1 }

abbrev enter : Bool → UpstreamMetrics → UpstreamMetrics
enter stream u = record u {
  total_requests = saturating_add u.total_requests 1;
  active_requests = saturating_add u.active_requests 1;
  stream_requests = add_if stream u.stream_requests;
}

abbrev or_default : Option UpstreamMetrics → UpstreamMetrics
or_default none = new_upstream
or_default (some u) = u

leave_previous : Option String → Map UpstreamMetrics → Map UpstreamMetrics
leave_previous none m = m
leave_previous (some previous) m = change previous leave m

-- `per_upstream.entry(name).or_default()`, changed.
enter_next : String → Bool → Map UpstreamMetrics → Map UpstreamMetrics
enter_next name stream m = Map.insert name (enter stream (or_default (Map.get name m))) m

unfoldable pub set_upstream : String → String → Metrics → RequestTracker → Metrics × RequestTracker
unfolding leave_previous enter_next change
set_upstream name model m t =
    if is_text t.upstream_name name && is_text t.upstream_model model then (m, t) else (
      record m {
        per_upstream = enter_next name t.stream (leave_previous t.upstream_name m.per_upstream);
      },
      record t { upstream_name = some name; upstream_model = some model },
    )

unfoldable pub set_request_processing : RequestProcessingInfo → RequestTracker → RequestTracker
set_request_processing llmup t = record t { llmup = llmup }

abbrev is_success : RequestOutcome → Bool
is_success success = true
is_success _ = false

abbrev is_error : RequestOutcome → Bool
is_error error = true
is_error _ = false

abbrev is_cancelled : RequestOutcome → Bool
is_cancelled cancelled = true
is_cancelled _ = false

abbrev settle : RequestOutcome → UpstreamMetrics → UpstreamMetrics
settle outcome u = record u {
  active_requests = u.active_requests - 1;
  success_responses = add_if (is_success outcome) u.success_responses;
  error_responses = add_if (is_error outcome) u.error_responses;
  cancelled_responses = add_if (is_cancelled outcome) u.cancelled_responses;
}

settle_upstream : RequestOutcome → Option String → Map UpstreamMetrics → Map UpstreamMetrics
settle_upstream outcome none m = m
settle_upstream outcome (some name) m = change name (settle outcome) m

-- `push_front`, and `pop_back` while the list is too long.
push_recent : RecentRequest → List RecentRequest → List RecentRequest
push_recent r rs = take max_recent_requests (r ∷ rs)

unfoldable pub finish_with :
    RequestOutcome → ℕ → ℕ → Metrics → RequestTracker → Metrics × RequestTracker
unfolding settle_upstream push_recent change
finish_with outcome status duration_ms m t = if t.finished then (m, t) else (
  record m {
    active_requests = m.active_requests - 1;
    active_stream_requests = sub_if t.stream m.active_stream_requests;
    success_responses = add_if (is_success outcome) m.success_responses;
    error_responses = add_if (is_error outcome) m.error_responses;
    cancelled_responses = add_if (is_cancelled outcome) m.cancelled_responses;
    per_upstream = settle_upstream outcome t.upstream_name m.per_upstream;
    recent_requests =
        push_recent
          (record {
            path = t.path;
            client_model = t.client_model;
            upstream_name = t.upstream_name;
            upstream_model = t.upstream_model;
            stream = t.stream;
            status = status;
            outcome = outcome;
            duration_ms = duration_ms;
            llmup = t.llmup;
          })
          m.recent_requests;
  },
  record t { finished = true },
)

unfoldable pub finish_success : ℕ → ℕ → Metrics → RequestTracker → Metrics × RequestTracker
finish_success = finish_with success

unfoldable pub finish_error : ℕ → ℕ → Metrics → RequestTracker → Metrics × RequestTracker
finish_error = finish_with error

unfoldable pub finish_cancelled : ℕ → Metrics → RequestTracker → Metrics × RequestTracker
finish_cancelled = finish_with cancelled 499

-- `Drop for RequestTracker`
unfoldable pub drop : ℕ → Metrics → RequestTracker → Metrics × RequestTracker
unfolding finish_cancelled
drop duration_ms m t = if t.finished then (m, t) else finish_cancelled duration_ms m t
