-- ===== src/Headers/Leaks.antt =====
-- Which credentials an upstream gets.
use llm_universal_proxy.Prelude.{
  String, true, ◌≡◌, refl, ◌∙◌, Option, none, some, [], ◌∷◌, ◌++◌, ok, ok_injective, one_of,
  to_lowercase, arith, subst, if◌then◌else◌,
}
use llm_universal_proxy.Formats.{
  UpstreamFormat, anthropic, open_ai_chat_completions, open_ai_responses,
}
use llm_universal_proxy.DataAuth.{
  HeaderMap, DataAccess, unconfigured, client_provider_key, proxy_key, misconfigured, DataAuthMode,
  client_provider_key_mode, proxy_key_mode, RequestAuthorization, by_client_provider_key,
  by_proxy_key, RequestAuthContext,
}
use llm_universal_proxy.Headers.{
  Headers, CredentialSource, client, server, EffectiveCredential, extract_forwardable_headers,
  is_auth, strip_auth_headers, auth_header_for_format, fingerprint_credential, with_key, select,
  build_auth_headers,
}

-- The fields that carry a credential.
abbrev pub auth_fields : Headers → Headers
auth_fields [] = []
auth_fields (h ∷ headers) = if is_auth h then h ∷ auth_fields headers else auth_fields headers

-- The key that the snapshot of a request allows for an upstream, and whose it is.
abbrev pub allowed_key :
    DataAuthMode
    → DataAccess
    → RequestAuthorization
    → Option String
    → Option (CredentialSource × String)
allowed_key client_provider_key_mode client_provider_key (by_client_provider_key key) none =
    some (client, key)
allowed_key proxy_key_mode (proxy_key _) by_proxy_key (some key) = some (server, key)
allowed_key _ _ _ _ = none

auth_fields-strip : (headers : Headers) → auth_fields (strip_auth_headers headers) ≡ []
unfolding strip_auth_headers
auth_fields-strip [] = refl
auth_fields-strip (h ∷ headers) = ground (arith, auth_fields-strip headers)

auth_fields-append : (a b : Headers) → auth_fields (a ++ b) ≡ auth_fields a ++ auth_fields b
auth_fields-append [] b = refl
auth_fields-append (h ∷ a) b = ground (arith, auth_fields-append a b)

auth_header-is_auth :
    (format : UpstreamFormat) (key : String) → is_auth (auth_header_for_format format key) ≡ true
unfolding auth_header_for_format to_lowercase one_of
auth_header-is_auth anthropic key = refl
auth_header-is_auth open_ai_chat_completions key = refl
auth_header-is_auth open_ai_responses key = refl

auth_fields-with_key :
    (headers : Headers) (format : UpstreamFormat) (key : String)
    → auth_fields (strip_auth_headers headers ++ auth_header_for_format format key ∷ [])
      ≡ auth_header_for_format format key ∷ []
auth_fields-with_key headers format key =
    auth_fields-append (strip_auth_headers headers) (auth_header_for_format format key ∷ [])
    ∙ rw (auth_fields-strip headers, auth_header-is_auth format key) refl

module _ (hex_sha256 : String → String) where
  -- What an upstream gets of the credentials, for the key that the snapshot allows.
  abbrev pub Carries :
      Option (CredentialSource × String) → UpstreamFormat → Headers × EffectiveCredential → Type 0
  Carries none format out = ⊥
  Carries (some (source, key)) format out =
      (auth_fields out.0 ≡ auth_header_for_format format key ∷ [])
      × (out.1
          ≡ record { source = source; fingerprint = some (fingerprint_credential hex_sha256 key) })

  with_key-Carries :
      (headers : Headers) (format : UpstreamFormat) (source : CredentialSource) (key : String)
      (out : Headers × EffectiveCredential)
      → with_key hex_sha256 (strip_auth_headers headers) format source key ≡ out
      → Carries (some (source, key)) format out
  with_key-Carries headers format source key out h =
      subst (Carries (some (source, key)) format) h (auth_fields-with_key headers format key, refl)

  module _ (headers : Headers) (format : UpstreamFormat) (generation : String) where
    select-Carries :
        (pk : Option String) (mode : DataAuthMode) (access : DataAccess) (a : RequestAuthorization)
        (out : Headers × EffectiveCredential)
        → select hex_sha256 (strip_auth_headers headers) format generation pk mode access a ≡ ok out
        → Carries (allowed_key mode access a pk) format out
    unfolding select
    select-Carries none client_provider_key_mode client_provider_key (by_client_provider_key key)
          out h =
        with_key-Carries headers format client key out (ok_injective h)
    select-Carries (some key) proxy_key_mode (proxy_key _) by_proxy_key out h =
        with_key-Carries headers format server key out (ok_injective h)
    select-Carries (some _) client_provider_key_mode client_provider_key
          (by_client_provider_key key) out h =
        cc
    select-Carries none proxy_key_mode (proxy_key _) by_proxy_key out h = cc
    select-Carries pk client_provider_key_mode client_provider_key by_proxy_key out h = cc
    select-Carries pk client_provider_key_mode (proxy_key _) (by_client_provider_key _) out h = cc
    select-Carries pk client_provider_key_mode (proxy_key _) by_proxy_key out h = cc
    select-Carries pk client_provider_key_mode unconfigured a out h = cc
    select-Carries pk client_provider_key_mode (misconfigured _) a out h = cc
    select-Carries pk proxy_key_mode client_provider_key (by_client_provider_key _) out h = cc
    select-Carries pk proxy_key_mode client_provider_key by_proxy_key out h = cc
    select-Carries pk proxy_key_mode (proxy_key _) (by_client_provider_key _) out h = cc
    select-Carries pk proxy_key_mode unconfigured a out h = cc
    select-Carries pk proxy_key_mode (misconfigured _) a out h = cc

  -- Of all credentials, an upstream gets exactly one header, with the key that the snapshot of the
  -- request allows: the client's own key where the access is the client's and the upstream has
  -- none, and the upstream's key where the access is by proxy key. The credential that is reported
  -- is that key's. No other header of the client that carries a credential is sent.
  pub build_auth_headers-Carries :
      (request_headers : HeaderMap) (context : RequestAuthContext) (provider_key : Option String)
      (format : UpstreamFormat) (out : Headers × EffectiveCredential)
      → build_auth_headers hex_sha256 request_headers context provider_key format ≡ ok out
      → Carries
          (allowed_key context.mode context.access context.authorization provider_key)
          format
          out
  unfolding build_auth_headers
  build_auth_headers-Carries request_headers context provider_key format out h =
      select-Carries (extract_forwardable_headers request_headers) format context.generation
        provider_key context.mode context.access context.authorization out h
