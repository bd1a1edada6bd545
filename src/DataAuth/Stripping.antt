-- ===== src/DataAuth/Stripping.antt =====
-- What the handlers see of a request's headers.
use llm_universal_proxy.Prelude.{
  bind-ok, ok_injective, subst, String, ◌≡◌, refl, ap, ◌∙◌, Bool, true, false, ◌||◌, Option, none,
  ok, List, [], ◌∷◌, one_of, str_eq, eq_iff, arith, if◌then◌else◌,
}
use llm_universal_proxy.DataAuth.{
  HeaderMap, get_all, remove, remove_each, credential_headers, strip_client_credential_headers,
  contains_key, extract_standard_credential, collect_authorization_credentials,
  collect_api_key_credentials, require_data_access, request_auth_context_for_headers, DataAuthMode,
  DataAccess, RequestAuthContext,
}

get_all-remove :
    (m n : String) (headers : HeaderMap)
    → get_all n (remove m headers) ≡ (if str_eq m n then [] else get_all n headers)
get_all-remove m n [] = ground arith
get_all-remove m n ((k, v) ∷ headers) =
    ground (arith, eq_iff m n, eq_iff k m, eq_iff k n, get_all-remove m n headers)

get_all-remove_each :
    (names : List String) (n : String) (headers : HeaderMap)
    → get_all n (remove_each names headers) ≡ (if one_of n names then [] else get_all n headers)
unfolding one_of
get_all-remove_each [] n headers = refl
get_all-remove_each (m ∷ names) n headers = ground (
  arith,
  eq_iff m n,
  eq_iff n m,
  get_all-remove m n headers,
  get_all-remove_each names n (remove m headers),
)

-- The names of fields that carry a credential, of a client or an operator.
abbrev pub carries_credential : String → Bool
carries_credential name =
    str_eq name "authorization"
    || str_eq name "x-api-key"
    || str_eq name "x-goog-api-key"
    || str_eq name "api-key"
    || str_eq name "openai-api-key"
    || str_eq name "anthropic-api-key"
    || str_eq name "x-llmup-data-token"

-- Headers without the credentials of others, and otherwise the same.
pub record IsStripped (headers handed : HeaderMap) : Type 0 where
  pub no_credential : extract_standard_credential handed ≡ ok none
  pub no_legacy_token : contains_key "x-llmup-data-token" handed ≡ false
  pub kept :
      (name : String)
      → get_all name handed ≡ (if carries_credential name then [] else get_all name headers)

listed : (name : String) → one_of name credential_headers ≡ carries_credential name
unfolding one_of
listed name = ground arith

strip-kept :
    (headers : HeaderMap) (name : String)
    → get_all name (strip_client_credential_headers headers)
      ≡ (if carries_credential name then [] else get_all name headers)
unfolding strip_client_credential_headers
strip-kept headers name =
    get_all-remove_each credential_headers name headers
    ∙ ap (λ (b : Bool). if b then [] else get_all name headers) (listed name)

-- Headers with no value under any name that is read have no credential.
nothing_to_extract :
    (headers : HeaderMap)
    → ((name : String) → carries_credential name ≡ true → get_all name headers ≡ [])
    → extract_standard_credential headers ≡ ok none
unfolding extract_standard_credential collect_authorization_credentials collect_api_key_credentials
nothing_to_extract headers none_of = rw (none_of "authorization" refl) (
    rw (none_of "x-api-key" refl) (
      rw (none_of "x-goog-api-key" refl) (
        rw (none_of "api-key" refl)
          (rw (none_of "openai-api-key" refl) (rw (none_of "anthropic-api-key" refl) refl)))))

no_key_step :
    (b r : Bool) (v : Option String) (values : List (Option String))
    → (if b then v ∷ values else values) ≡ []
    → (values ≡ [] → r ≡ false)
    → (b || r) ≡ false
no_key_step true r v values h rest = cc
no_key_step false r v values h rest = rest h

no_key :
    (name : String) (headers : HeaderMap)
    → get_all name headers ≡ []
    → contains_key name headers ≡ false
no_key name [] h = refl
no_key name ((k, v) ∷ headers) h =
    no_key_step (str_eq k name) (contains_key name headers) v (get_all name headers) h
      (no_key name headers)

gone :
    (headers : HeaderMap) (name : String)
    → carries_credential name ≡ true
    → get_all name (strip_client_credential_headers headers) ≡ []
gone headers name h =
    strip-kept headers name ∙ ap (λ (b : Bool). if b then [] else get_all name headers) h

strip-IsStripped :
    (headers : HeaderMap) → IsStripped headers (strip_client_credential_headers headers)
strip-IsStripped headers = record {
  no_credential = nothing_to_extract (strip_client_credential_headers headers) (gone headers);
  no_legacy_token =
      no_key "x-llmup-data-token" (strip_client_credential_headers headers)
        (gone headers "x-llmup-data-token" refl);
  kept = strip-kept headers;
}

-- Where a request may use the proxy, the headers that its handler gets have no credential to extract,
-- under whatever name one is read, and no field of the legacy token; each field whose name carries no
-- credential has the values that the client sent.
pub require_data_access-IsStripped :
    (revision : String) (mode : DataAuthMode) (access : DataAccess) (headers handed : HeaderMap)
    (context : RequestAuthContext)
    → require_data_access revision mode access headers ≡ ok (context, handed)
    → IsStripped headers handed
unfolding require_data_access
require_data_access-IsStripped revision mode access headers handed context h =
    let (found, _, e) =
      bind-ok (request_auth_context_for_headers revision mode access headers) _ (context, handed)
        h in
    subst (IsStripped headers) (ap (λ r. r.1) (ok_injective e)) (strip-IsStripped headers)
