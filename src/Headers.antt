-- ===== src/Headers.antt =====
-- src/server/headers.rs, the request's side: the headers and the credential that go to an upstream.
-- SHA-256, printed in hexadecimal, is a parameter. The response's side and the debug log are not
-- modelled.
pub mod Leaks
pub mod Static
use Prim.Native.String.{slice}
use llm_universal_proxy.Prelude.{
  ℕ, String, Bool, true, false, not, Option, none, some, List, [], ◌∷◌, ◌++◌, any, Result, ok, err,
  one_of, concat, to_lowercase, to_ascii_lowercase, eq_ignore_ascii_case, is_some, if◌then◌else◌,
}
use llm_universal_proxy.Formats.{
  UpstreamFormat, anthropic, open_ai_chat_completions, open_ai_responses,
}
use llm_universal_proxy.DataAuth.{
  HeaderMap, DataAccess, unconfigured, client_provider_key, proxy_key, misconfigured, DataAuthMode,
  client_provider_key_mode, proxy_key_mode, RequestAuthorization, by_client_provider_key,
  by_proxy_key, RequestAuthContext,
}

abbrev pub Headers : Type 0
Headers = List (String × String)

pub data CredentialSource : Type 0 where
  client server : CredentialSource

pub record EffectiveCredential : Type 0 where
  pub source : CredentialSource
  pub fingerprint : Option String

-- The texts of the errors; a snapshot's mismatch carries the generation.
pub data AuthError : Type 0 where
  client_mode_has_server_key proxy_mode_missing_server_key authorization_mismatch :
      String → AuthError
  data_auth_not_configured : AuthError
  data_auth_is_misconfigured : String → AuthError

abbrev pub forwardable : List String
forwardable =
    "authorization" ∷ "x-api-key" ∷ "x-goog-api-key" ∷ "api-key" ∷ "openai-api-key"
    ∷ "anthropic-api-key" ∷ "anthropic-version" ∷ "anthropic-beta" ∷ "openai-organization"
    ∷ "openai-project" ∷ "idempotency-key" ∷ "x-stainless-helper-method" ∷ []

abbrev keep_value : String → Option String → Headers
keep_value name none = []
keep_value name (some v) = (name, v) ∷ []

unfoldable pub extract_forwardable_headers : HeaderMap → Headers
extract_forwardable_headers [] = []
extract_forwardable_headers ((name, value) ∷ headers) =
    let rest = extract_forwardable_headers headers in
    (if one_of (to_lowercase name) forwardable then keep_value (to_lowercase name) value else [])
    ++ rest

abbrev pub auth_names : List String
auth_names =
    "authorization" ∷ "x-api-key" ∷ "x-goog-api-key" ∷ "api-key" ∷ "openai-api-key"
    ∷ "anthropic-api-key" ∷ []

abbrev pub is_auth : String × String → Bool
is_auth h = one_of (to_lowercase h.0) auth_names

unfoldable pub strip_auth_headers : Headers → Headers
strip_auth_headers [] = []
strip_auth_headers (h ∷ headers) =
    let rest = strip_auth_headers headers in if is_auth h then rest else h ∷ rest

unfoldable pub auth_header_for_format : UpstreamFormat → String → String × String
auth_header_for_format open_ai_chat_completions api_key =
    ("authorization", concat "Bearer " api_key)
auth_header_for_format open_ai_responses api_key = ("authorization", concat "Bearer " api_key)
auth_header_for_format anthropic api_key = ("x-api-key", api_key)

-- `fingerprint_credential` of src/hooks.rs.
unfoldable pub fingerprint_credential : (String → String) → String → String
fingerprint_credential hex_sha256 credential =
    slice (hex_sha256 (concat "llm-universal-proxy:v1:" credential)) 0 16

module _ (hex_sha256 : String → String) where
  -- The headers with the one that carries the key, and the credential's description.
  abbrev with_key :
      Headers → UpstreamFormat → CredentialSource → String → Headers × EffectiveCredential
  with_key headers format source key = (
    headers ++ auth_header_for_format format key ∷ [],
    record { source = source; fingerprint = some (fingerprint_credential hex_sha256 key) },
  )

  abbrev client_key :
      Headers
      → UpstreamFormat
      → String
      → String
      → Option String
      → Result AuthError (Headers × EffectiveCredential)
  client_key headers format generation key (some _) = err (client_mode_has_server_key generation)
  client_key headers format generation key none = ok (with_key headers format client key)

  abbrev server_key :
      Headers
      → UpstreamFormat
      → String
      → Option String
      → Result AuthError (Headers × EffectiveCredential)
  server_key headers format generation none = err (proxy_mode_missing_server_key generation)
  server_key headers format generation (some key) = ok (with_key headers format server key)

  -- The match on the snapshot; `provider_key` is that of the upstream's state.
  select :
      Headers
      → UpstreamFormat
      → String
      → Option String
      → DataAuthMode
      → DataAccess
      → RequestAuthorization
      → Result AuthError (Headers × EffectiveCredential)
  select headers format generation provider_key client_provider_key_mode client_provider_key
        (by_client_provider_key key) =
      client_key headers format generation key provider_key
  select headers format generation provider_key proxy_key_mode (proxy_key _) by_proxy_key =
      server_key headers format generation provider_key
  select headers format generation provider_key _ unconfigured _ = err data_auth_not_configured
  select headers format generation provider_key _ (misconfigured message) _ =
      err (data_auth_is_misconfigured message)
  select headers format generation provider_key _ _ _ = err (authorization_mismatch generation)

  unfoldable pub build_auth_headers :
      HeaderMap
      → RequestAuthContext
      → Option String
      → UpstreamFormat
      → Result AuthError (Headers × EffectiveCredential)
  unfolding select
  build_auth_headers request_headers auth_context provider_key format =
      select (strip_auth_headers (extract_forwardable_headers request_headers)) format
        auth_context.generation provider_key auth_context.mode auth_context.access
        auth_context.authorization

unfoldable pub default_protocol_headers : UpstreamFormat → Headers
default_protocol_headers anthropic = ("anthropic-version", "2023-06-01") ∷ []
default_protocol_headers open_ai_chat_completions = []
default_protocol_headers open_ai_responses = []

abbrev names : String → Headers → Bool
names name headers = any (λ h. eq_ignore_ascii_case h.0 name) headers

add_defaults : Headers → Headers → Headers
add_defaults headers [] = headers
add_defaults headers ((name, value) ∷ rest) =
    add_defaults (if names name headers then headers else headers ++ (name, value) ∷ []) rest

-- The first field of the name gets the value, or the field is pushed.
unfoldable pub upsert_header : Headers → String → String → Headers
upsert_header [] name value = (name, value) ∷ []
upsert_header ((n, v) ∷ headers) name value =
    let rest = upsert_header headers name value in
    if eq_ignore_ascii_case n name then (n, value) ∷ headers else (n, v) ∷ rest

add_extra : Headers → Headers → Headers
add_extra headers [] = headers
add_extra headers ((name, value) ∷ rest) =
    add_extra (upsert_header headers (to_lowercase name) value) rest

unfoldable pub apply_upstream_headers : Headers → Headers → UpstreamFormat → Headers
unfolding add_defaults add_extra
apply_upstream_headers headers extra_headers format =
    add_extra (add_defaults headers (default_protocol_headers format)) extra_headers

-- `is_forbidden_upstream_header_name` of src/config.rs.
unfoldable pub is_forbidden_upstream_header_name : String → Bool
is_forbidden_upstream_header_name name = one_of (to_ascii_lowercase name) (
    "authorization" ∷ "proxy-authorization" ∷ "x-api-key" ∷ "x-goog-api-key" ∷ "api-key"
    ∷ "openai-api-key" ∷ "anthropic-api-key" ∷ [])
