-- ===== src/DataAuth.antt =====
-- src/server/data_auth.rs: how a request proves that it may use the proxy, and what is left of its
-- credentials. A `HeaderMap` is a list of fields with lower-case names; the value of one is none
-- where `to_str` fails. Reading the configuration and the admin views are not modelled.
pub mod Granting
pub mod Stripping
use llm_universal_proxy.Prelude.{
  ℕ, String, Bool, true, false, not, Option, none, some, List, [], ◌∷◌, ◌++◌, any, Result, ok, err,
  ◌>>=◌, str_eq, trim, one_of, strip_prefix_ignore_case, if◌then◌else◌,
}

abbrev pub HeaderMap : Type 0
HeaderMap = List (String × Option String)

pub data DataAccess : Type 0 where
  unconfigured client_provider_key : DataAccess
  proxy_key : String → DataAccess
  misconfigured : String → DataAccess

pub data DataAuthMode : Type 0 where
  client_provider_key_mode proxy_key_mode : DataAuthMode

pub data RequestAuthorization : Type 0 where
  by_client_provider_key : String → RequestAuthorization
  by_proxy_key : RequestAuthorization

pub data CredentialError : Type 0 where
  empty multiple non_bearer_authorization invalid_header_value : CredentialError

-- The status and the message of a refusal.
pub data Refusal : Type 0 where
  legacy_token : Refusal
  bad_credential : CredentialError → Refusal
  data_auth_unconfigured data_auth_misconfigured : Refusal
  provider_credential_required proxy_key_required proxy_key_invalid : Refusal

unfoldable pub status : Refusal → ℕ
status legacy_token = 400
status (bad_credential _) = 400
status data_auth_unconfigured = 503
status data_auth_misconfigured = 503
status provider_credential_required = 401
status proxy_key_required = 401
status proxy_key_invalid = 403

-- `RequestAuthContext`, without the snapshot of the runtime.
pub record RequestAuthContext : Type 0 where
  pub generation : String
  pub mode : DataAuthMode
  pub access : DataAccess
  pub authorization : RequestAuthorization

abbrev pub legacy_data_token_header : String
legacy_data_token_header = "x-llmup-data-token"

abbrev pub contains_key : String → HeaderMap → Bool
contains_key name headers = any (λ h. str_eq h.0 name) headers

abbrev pub get_all : String → HeaderMap → List (Option String)
get_all name [] = []
get_all name ((n, v) ∷ headers) =
    if str_eq n name then v ∷ get_all name headers else get_all name headers

abbrev remove : String → HeaderMap → HeaderMap
remove name [] = []
remove name ((n, v) ∷ headers) =
    if str_eq n name then remove name headers else (n, v) ∷ remove name headers

abbrev pub api_key_headers : List String
api_key_headers =
    "x-api-key" ∷ "x-goog-api-key" ∷ "api-key" ∷ "openai-api-key" ∷ "anthropic-api-key" ∷ []

-- One value of `Authorization`.
abbrev bearer_token : Option String → Result CredentialError String
bearer_token none = err invalid_header_value
bearer_token (some value) = elim (strip_prefix_ignore_case "Bearer " value) [
  | none ↦ err non_bearer_authorization
  | some token ↦ if str_eq (trim token) "" then err empty else ok token
]

-- One value of an API key's header.
abbrev api_key : Option String → Result CredentialError String
api_key none = err invalid_header_value
api_key (some value) = if str_eq (trim value) "" then err empty else ok value

-- The loops of the two `collect_…`: each value is read and pushed.
abbrev collect :
    (Option String → Result CredentialError String)
    → List (Option String)
    → List String
    → Result CredentialError (List String)
collect read [] credentials = ok credentials
collect read (v ∷ vs) credentials =
    read v >>= λ credential. collect read vs (credentials ++ credential ∷ [])

unfoldable pub collect_authorization_credentials :
    HeaderMap → List String → Result CredentialError (List String)
collect_authorization_credentials headers = collect bearer_token (get_all "authorization" headers)

unfoldable pub collect_api_key_credentials :
    HeaderMap → String → List String → Result CredentialError (List String)
collect_api_key_credentials headers name = collect api_key (get_all name headers)

abbrev collect_each : HeaderMap → List String → List String → Result CredentialError (List String)
collect_each headers [] credentials = ok credentials
collect_each headers (name ∷ names) credentials =
    collect_api_key_credentials headers name credentials >>= collect_each headers names

abbrev single : List String → Result CredentialError (Option String)
single [] = ok none
single (credential ∷ []) = ok (some credential)
single (_ ∷ _ ∷ _) = err multiple

unfoldable pub extract_standard_credential : HeaderMap → Result CredentialError (Option String)
extract_standard_credential headers = do
  credentials ← collect_authorization_credentials headers []
  all ← collect_each headers api_key_headers credentials
  single all

-- The match on the access, for the credential that was found.
abbrev decide : DataAccess → Option String → Result Refusal RequestAuthorization
decide unconfigured credential = err data_auth_unconfigured
decide client_provider_key none = err provider_credential_required
decide client_provider_key (some provider_key) = ok (by_client_provider_key provider_key)
decide (proxy_key key) none = err proxy_key_required
decide (proxy_key key) (some given) =
    if str_eq given key then ok by_proxy_key else err proxy_key_invalid
decide (misconfigured _) credential = err data_auth_misconfigured

abbrev with_credential :
    DataAccess → Result CredentialError (Option String) → Result Refusal RequestAuthorization
with_credential access (ok credential) = decide access credential
with_credential access (err e) = err (bad_credential e)

unfoldable pub authorize_data_request : DataAccess → HeaderMap → Result Refusal RequestAuthorization
authorize_data_request access headers =
    if contains_key legacy_data_token_header headers
    then err legacy_token
    else with_credential access (extract_standard_credential headers)

abbrev pub remove_each : List String → HeaderMap → HeaderMap
remove_each [] headers = headers
remove_each (name ∷ names) headers = remove_each names (remove name headers)

abbrev pub credential_headers : List String
credential_headers =
    "authorization" ∷ "x-api-key" ∷ "x-goog-api-key" ∷ "api-key" ∷ "openai-api-key"
    ∷ "anthropic-api-key" ∷ legacy_data_token_header ∷ []

unfoldable pub strip_client_credential_headers : HeaderMap → HeaderMap
strip_client_credential_headers headers = remove_each credential_headers headers

-- `request_auth_context_for_headers`, from the state that it reads under the locks.
unfoldable pub request_auth_context_for_headers :
    String → DataAuthMode → DataAccess → HeaderMap → Result Refusal RequestAuthContext
request_auth_context_for_headers revision mode access headers = do
  authorization ← authorize_data_request access headers
  ok (record { generation = revision; mode = mode; access = access; authorization = authorization })

-- `require_data_access`: a refusal, or the context and the headers that the handler gets.
unfoldable pub require_data_access :
    String → DataAuthMode → DataAccess → HeaderMap → Result Refusal (RequestAuthContext × HeaderMap)
require_data_access revision mode access headers = do
  context ← request_auth_context_for_headers revision mode access headers
  ok (context, strip_client_credential_headers headers)
