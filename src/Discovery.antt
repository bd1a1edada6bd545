-- ===== src/Discovery.antt =====
-- src/discovery.rs: which formats an upstream speaks, found by one probe per format, and the format
-- that a request is sent in. A `HashSet` of formats is a list; the network is `send`, the status
-- that it gives for a probe, or none on an error of the connection.
pub mod Capability
use llm_universal_proxy.Prelude.{
  ℕ, String, Bool, true, false, ◌&&◌, ◌||◌, Option, none, some, List, [], ◌∷◌, ◌++◌, any, concat,
  leb, ◌==◌, if◌then◌else◌,
}
use llm_universal_proxy.Json.Value.{
  Value, string, array, object, number, pos_int, nil, Fields, end, entry,
}
use llm_universal_proxy.Formats.{
  UpstreamFormat, anthropic, open_ai_chat_completions, open_ai_responses, is_same,
}
use llm_universal_proxy.Routing.{build_upstream_url}

abbrev pub default_target_order : List UpstreamFormat
default_target_order = open_ai_chat_completions ∷ open_ai_responses ∷ anthropic ∷ []

abbrev pub contains : UpstreamFormat → List UpstreamFormat → Bool
contains f fs = any (is_same f) fs

abbrev insert : UpstreamFormat → List UpstreamFormat → List UpstreamFormat
insert f fs = if contains f fs then fs else f ∷ fs

pub record UpstreamCapability : Type 0 where
  pub supported : List UpstreamFormat
  pub default_target : UpstreamFormat

pub data UpstreamAvailability : Type 0 where
  available : UpstreamAvailability
  unavailable : String → UpstreamAvailability

pub record DiscoveredUpstream : Type 0 where
  pub capability : Option UpstreamCapability
  pub availability : UpstreamAvailability

abbrev pub is_available : UpstreamAvailability → Bool
is_available available = true
is_available (unavailable _) = false

abbrev pub reason : UpstreamAvailability → Option String
reason available = none
reason (unavailable why) = some why

-- `UpstreamCapability::fixed`
unfoldable pub fixed_capability : UpstreamFormat → UpstreamCapability
fixed_capability format = record { supported = format ∷ []; default_target = format }

abbrev first_supported : List UpstreamFormat → List UpstreamFormat → Option UpstreamFormat
first_supported supported [] = none
first_supported supported (f ∷ fs) =
    if contains f supported then some f else first_supported supported fs

-- The `expect` of the source: no target is found only for the empty set, which returns before.
abbrev with_target : List UpstreamFormat → Option UpstreamFormat → Option UpstreamCapability
with_target supported none = none
with_target supported (some target) =
    some (record { supported = supported; default_target = target })

-- `UpstreamCapability::from_supported`
unfoldable pub from_supported : List UpstreamFormat → Option UpstreamCapability
from_supported [] = none
from_supported (f ∷ fs) = with_target (f ∷ fs) (first_supported (f ∷ fs) default_target_order)

unfoldable pub upstream_format_for_request : UpstreamCapability → UpstreamFormat → UpstreamFormat
upstream_format_for_request c client_format =
    if contains client_format c.supported then client_format else c.default_target

unfoldable pub should_passthrough : UpstreamCapability → UpstreamFormat → Bool
should_passthrough c client_format = contains client_format c.supported

-- `DiscoveredUpstream::fixed`
unfoldable pub fixed_upstream : UpstreamFormat → DiscoveredUpstream
unfolding fixed_capability
fixed_upstream format = record {
  capability = some (fixed_capability format);
  availability = available;
}

abbrev of_capability : Option UpstreamCapability → DiscoveredUpstream
of_capability (some c) = record { capability = some c; availability = available }
of_capability none = record {
  capability = none;
  availability = unavailable "protocol discovery returned no supported formats";
}

-- `DiscoveredUpstream::from_supported`
unfoldable pub discovered_upstream : List UpstreamFormat → DiscoveredUpstream
discovered_upstream supported = of_capability (from_supported supported)

unfoldable pub minimal_probe_body : UpstreamFormat → Value
minimal_probe_body open_ai_chat_completions =
    object (entry "model" (string "gpt-4o") (entry "messages" (array nil) end))
minimal_probe_body open_ai_responses =
    object (entry "model" (string "gpt-4o") (entry "input" (array nil) end))
minimal_probe_body anthropic = object (
    entry "model" (string "claude-3-5-sonnet-20241022")
      (entry "max_tokens" (number (pos_int 1)) (entry "messages" (array nil) end)))

unfoldable pub default_headers_for_format : UpstreamFormat → List (String × String)
default_headers_for_format anthropic = ("anthropic-version", "2023-06-01") ∷ []
default_headers_for_format open_ai_chat_completions = []
default_headers_for_format open_ai_responses = []

unfoldable pub auth_header_for_format : UpstreamFormat → String → String × String
auth_header_for_format anthropic api_key = ("x-api-key", api_key)
auth_header_for_format open_ai_chat_completions api_key =
    ("authorization", concat "Bearer " api_key)
auth_header_for_format open_ai_responses api_key = ("authorization", concat "Bearer " api_key)

unfoldable pub status_indicates_support : ℕ → Bool
status_indicates_support status =
    leb 200 status && leb status 299
    || status == 400
    || status == 401
    || status == 403
    || status == 405
    || status == 406
    || status == 409
    || status == 415
    || status == 422
    || status == 429

pub record Probe : Type 0 where
  pub url : String
  pub headers : List (String × String)
  pub body : Value

abbrev key_header : UpstreamFormat → Option String → List (String × String)
key_header format none = []
key_header format (some key) = auth_header_for_format format key ∷ []

unfoldable pub probe : String → Option String → List (String × String) → UpstreamFormat → Probe
probe base_url api_key extra_headers format = record {
  url = build_upstream_url base_url format;
  headers = default_headers_for_format format ++ (extra_headers ++ key_header format api_key);
  body = minimal_probe_body format;
}

abbrev pub is_support : Option ℕ → Bool
is_support none = false
is_support (some status) = status_indicates_support status

-- The loop over the formats; `supported` is the set so far.
probe_each :
    (Probe → Option ℕ)
    → String
    → Option String
    → List (String × String)
    → List UpstreamFormat
    → List UpstreamFormat
    → List UpstreamFormat
probe_each send base_url api_key extra_headers [] supported = supported
probe_each send base_url api_key extra_headers (format ∷ rest) supported =
    probe_each send base_url api_key extra_headers rest (
      if is_support (send (probe base_url api_key extra_headers format))
      then insert format supported
      else supported)

unfoldable pub discover_supported_formats :
    (Probe → Option ℕ) → String → Option String → List (String × String) → List UpstreamFormat
unfolding probe_each
discover_supported_formats send base_url api_key extra_headers =
    probe_each send base_url api_key extra_headers default_target_order []
