-- ===== src/Tests/Access.antt =====
-- Credentials: src/server/data_auth.rs and src/server/headers.rs.
use llm_universal_proxy.Headers.Static.{values, values-apply_upstream_headers}
use llm_universal_proxy.Prelude.{
  All, eq_ignore_ascii_case, str_eq, String, ◌≡◌, refl, some, [], ◌∷◌, ok, err, one_of, trim,
  strip_prefix_ignore_case, to_lowercase, to_ascii_lowercase, false,
}
use llm_universal_proxy.Formats.{anthropic, open_ai_responses}
use llm_universal_proxy.DataAuth.{
  HeaderMap, proxy_key, proxy_key_mode, by_proxy_key, RequestAuthContext, bad_credential, multiple,
  proxy_key_invalid, authorize_data_request, extract_standard_credential,
  collect_authorization_credentials, collect_api_key_credentials, strip_client_credential_headers,
  require_data_access, request_auth_context_for_headers,
}
use llm_universal_proxy.DataAuth.Granting.{IsGranted, authorize_data_request-IsGranted}
use llm_universal_proxy.Headers.{
  Headers, default_protocol_headers, server, build_auth_headers, auth_header_for_format,
  extract_forwardable_headers, strip_auth_headers, apply_upstream_headers, upsert_header,
  is_forbidden_upstream_header_name, fingerprint_credential, EffectiveCredential,
}
use llm_universal_proxy.DataAuth.Stripping.{IsStripped, require_data_access-IsStripped}
use llm_universal_proxy.Headers.Leaks.{Carries, allowed_key, build_auth_headers-Carries}

abbrev request : HeaderMap
request =
    ("content-type", some "application/json")
    ∷ ("authorization", some "bearer proxy-key")
    ∷ ("openai-project", some "p1")
    ∷ []

granted : authorize_data_request (proxy_key "proxy-key") request ≡ ok by_proxy_key
unfolding authorize_data_request extract_standard_credential collect_authorization_credentials
    collect_api_key_credentials strip_prefix_ignore_case trim
granted = refl

refused : authorize_data_request (proxy_key "other") request ≡ err proxy_key_invalid
unfolding authorize_data_request extract_standard_credential collect_authorization_credentials
    collect_api_key_credentials strip_prefix_ignore_case trim
refused = refl

two_credentials :
    authorize_data_request (proxy_key "proxy-key") (("x-api-key", some "proxy-key") ∷ request)
    ≡ err (bad_credential multiple)
unfolding authorize_data_request extract_standard_credential collect_authorization_credentials
    collect_api_key_credentials strip_prefix_ignore_case trim
two_credentials = refl

authorize_data_request_example : IsGranted (proxy_key "proxy-key") request by_proxy_key
authorize_data_request_example =
    authorize_data_request-IsGranted (proxy_key "proxy-key") request by_proxy_key granted

abbrev context : RequestAuthContext
context = record {
  generation = "7";
  mode = proxy_key_mode;
  access = proxy_key "proxy-key";
  authorization = by_proxy_key;
}

abbrev with_google_key : HeaderMap
with_google_key = ("x-goog-api-key", some "proxy-key") ∷ ("openai-project", some "p1") ∷ []

handed :
    require_data_access "7" proxy_key_mode (proxy_key "proxy-key") with_google_key
    ≡ ok (context, ("openai-project", some "p1") ∷ [])
unfolding require_data_access request_auth_context_for_headers authorize_data_request
    extract_standard_credential collect_authorization_credentials collect_api_key_credentials
    strip_client_credential_headers strip_prefix_ignore_case trim
handed = refl

require_data_access-IsStripped_example :
    IsStripped with_google_key (("openai-project", some "p1") ∷ [])
require_data_access-IsStripped_example =
    require_data_access-IsStripped "7" proxy_key_mode (proxy_key "proxy-key") with_google_key
      (("openai-project", some "p1") ∷ []) context handed

-- The parameter for SHA-256 at this input: the text itself.
abbrev same_text : String → String
same_text s = s

abbrev sent : Headers × EffectiveCredential
sent = (
  ("openai-project", "p1") ∷ ("x-api-key", "upstream-key") ∷ [],
  record { source = server; fingerprint = some (fingerprint_credential same_text "upstream-key") },
)

built : build_auth_headers same_text request context (some "upstream-key") anthropic ≡ ok sent
unfolding build_auth_headers strip_auth_headers extract_forwardable_headers auth_header_for_format
    to_lowercase one_of
built = refl

build_auth_headers_example :
    Carries same_text
      (allowed_key context.mode context.access context.authorization (some "upstream-key"))
      anthropic
      sent
build_auth_headers_example =
    build_auth_headers-Carries same_text request context (some "upstream-key") anthropic sent built

default_differs : All (λ x. str_eq x.0 "x-api-key" ≡ false) (default_protocol_headers anthropic)
unfolding default_protocol_headers
default_differs = (refl, tt)

abbrev team : Headers
team = ("X-Team", "t") ∷ []

team_differs : All (λ x. eq_ignore_ascii_case "x-api-key" (to_lowercase x.0) ≡ false) team
unfolding to_ascii_lowercase to_lowercase
team_differs = (refl, tt)

values-apply_upstream_headers_example :
    values "x-api-key" (apply_upstream_headers sent.0 team anthropic) ≡ values "x-api-key" sent.0
values-apply_upstream_headers_example =
    values-apply_upstream_headers "x-api-key" sent.0 team anthropic default_differs team_differs

-- A configured name with the Kelvin sign for its `k` is not among the forbidden ones, since those
-- are compared in ASCII lower case, but `to_lowercase` makes it the name of the credential's
-- header.
kelvin_allowed : is_forbidden_upstream_header_name "x-api-Key" ≡ false
unfolding is_forbidden_upstream_header_name to_ascii_lowercase one_of
kelvin_allowed = refl

kelvin_overrides :
    apply_upstream_headers
      (("x-api-key", "upstream-key") ∷ [])
      (("x-api-Key", "other") ∷ [])
      open_ai_responses
    ≡ ("x-api-key", "other") ∷ []
unfolding apply_upstream_headers upsert_header default_protocol_headers to_lowercase
    to_ascii_lowercase
kelvin_overrides = refl
