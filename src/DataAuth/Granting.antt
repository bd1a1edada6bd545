-- ===== src/DataAuth/Granting.antt =====
-- When a request is let through.
use llm_universal_proxy.Prelude.{
  ℕ, ◌+◌, String, true, false, ◌≡◌, refl, ap, subst, ◌∙◌, ok_injective, bind-ok, List, [], ◌∷◌,
  ◌++◌, length, length-append, Option, none, some, str_eq, eq_iff, arith, Result, ok, err, ◌>>=◌,
  Bool-cases, inl, inr,
}
use llm_universal_proxy.DataAuth.{
  HeaderMap, DataAccess, unconfigured, client_provider_key, proxy_key, misconfigured,
  RequestAuthorization, by_client_provider_key, by_proxy_key, CredentialError,
  legacy_data_token_header, contains_key, get_all, api_key_headers, collect, collect_each,
  collect_authorization_credentials, collect_api_key_credentials, bearer_token, api_key, single,
  extract_standard_credential, decide, with_credential, authorize_data_request,
}

-- How many fields carry a credential.
abbrev pub api_key_fields : HeaderMap → List String → ℕ
api_key_fields headers [] = 0
api_key_fields headers (name ∷ names) = length (get_all name headers) + api_key_fields headers names

abbrev pub credential_fields : HeaderMap → ℕ
credential_fields headers =
    length (get_all "authorization" headers) + api_key_fields headers api_key_headers

-- What a credential entitles to.
abbrev pub Grants : DataAccess → RequestAuthorization → String → Type 0
Grants (proxy_key key) by_proxy_key credential = credential ≡ key
Grants client_provider_key (by_client_provider_key given) credential = credential ≡ given
Grants _ _ credential = ⊥

pub record IsGranted (access : DataAccess) (headers : HeaderMap) (a : RequestAuthorization)
    : Type 0 where
  pub credential : String
  pub extracted : extract_standard_credential headers ≡ ok (some credential)
  pub grants : Grants access a credential
  pub only_one : credential_fields headers ≡ 1
  pub no_legacy : contains_key legacy_data_token_header headers ≡ false

length-collect :
    (read : Option String → Result CredentialError String) (vs : List (Option String))
    (credentials out : List String)
    → collect read vs credentials ≡ ok out
    → length out ≡ length credentials + length vs
length-collect read [] credentials out h = rw⁻¹ (ok_injective h) (omega arith)
length-collect read (v ∷ vs) credentials out h =
    let (c, _, rest) = bind-ok (read v) (λ k. collect read vs (credentials ++ k ∷ [])) out h in
    omega (
      arith,
      length-collect read vs (credentials ++ c ∷ []) out rest,
      length-append credentials (c ∷ []),
    )

length-collect_each :
    (headers : HeaderMap) (names : List String) (credentials out : List String)
    → collect_each headers names credentials ≡ ok out
    → length out ≡ length credentials + api_key_fields headers names
unfolding collect_api_key_credentials
length-collect_each headers [] credentials out h = rw⁻¹ (ok_injective h) (omega arith)
length-collect_each headers (name ∷ names) credentials out h =
    let (cs, at, rest) =
      bind-ok (collect api_key (get_all name headers) credentials) (collect_each headers names) out
        h in
    omega (
      arith,
      length-collect_each headers names cs out rest,
      length-collect api_key (get_all name headers) credentials cs at,
    )

single-length :
    (cs : List String) (credential : String) → single cs ≡ ok (some credential) → length cs ≡ 1
single-length [] credential h = absurd (nothing (ok_injective h))
  where
    nothing : none ≡ some credential → ⊥
    nothing e = cc
single-length (c ∷ []) credential h = refl
single-length (_ ∷ _ ∷ _) credential h = cc

extracted-fields :
    (headers : HeaderMap) (credential : String)
    → extract_standard_credential headers ≡ ok (some credential)
    → credential_fields headers ≡ 1
unfolding extract_standard_credential collect_authorization_credentials
extracted-fields headers credential h =
    let (cs, at, rest) =
      bind-ok (collect bearer_token (get_all "authorization" headers) [])
        (λ k. collect_each headers api_key_headers k >>= single) (some credential) h in
    let (all, at', one) =
      bind-ok (collect_each headers api_key_headers cs) single (some credential) rest in
    omega (
      arith,
      length-collect bearer_token (get_all "authorization" headers) [] cs at,
      length-collect_each headers api_key_headers cs all at',
      single-length all credential one,
    )

decide-Grants :
    (access : DataAccess) (o : Option String) (a : RequestAuthorization)
    → decide access o ≡ ok a
    → (credential : String) × (o ≡ some credential) × Grants access a credential
decide-Grants unconfigured o a h = cc
decide-Grants (misconfigured _) o a h = cc
decide-Grants client_provider_key none a h = cc
decide-Grants client_provider_key (some given) a h =
    (given, refl, subst (λ x. Grants client_provider_key x given) (ok_injective h) refl)
decide-Grants (proxy_key key) none a h = cc
decide-Grants (proxy_key key) (some given) a h = elim (Bool-cases (str_eq given key)) [
  | inl e ↦ (given, refl, matched e)
  | inr e ↦ absurd (refused e)
]
  where
    matched : str_eq given key ≡ true → Grants (proxy_key key) a given
    matched e =
        let granted : by_proxy_key ≡ a = ground arith in
        subst (λ x. Grants (proxy_key key) x given) granted ((eq_iff given key).0 e)

    refused : str_eq given key ≡ false → ⊥
    refused e = ground arith

with_credential-IsGranted :
    (access : DataAccess) (headers : HeaderMap) (a : RequestAuthorization)
    (r : Result CredentialError (Option String))
    → extract_standard_credential headers ≡ r
    → with_credential access r ≡ ok a
    → contains_key legacy_data_token_header headers ≡ false
    → IsGranted access headers a
with_credential-IsGranted access headers a (err e) at h absent = cc
with_credential-IsGranted access headers a (ok o) at h absent =
    let (credential, found, grants) = decide-Grants access o a h in
    let extracted : extract_standard_credential headers ≡ ok (some credential) = at ∙ ap ok found in
    record {
      credential = credential;
      extracted = extracted;
      grants = grants;
      only_one = extracted-fields headers credential extracted;
      no_legacy = absent;
    }

-- A request is authorized only with one credential in all its fields, no field of the legacy
-- token, and access that is configured: under a proxy key the credential is that key, and under
-- the client's provider key the authorization carries the credential that was presented.
pub authorize_data_request-IsGranted :
    (access : DataAccess) (headers : HeaderMap) (a : RequestAuthorization)
    → authorize_data_request access headers ≡ ok a
    → IsGranted access headers a
unfolding authorize_data_request
authorize_data_request-IsGranted access headers a h =
    elim (Bool-cases (contains_key legacy_data_token_header headers)) [
      | inl e ↦ absurd (legacy e)
      | inr e ↦
          with_credential-IsGranted access headers a (extract_standard_credential headers) refl
            (present e) e
    ]
  where
    legacy : contains_key legacy_data_token_header headers ≡ true → ⊥
    legacy e = ground arith

    present :
        contains_key legacy_data_token_header headers ≡ false
        → with_credential access (extract_standard_credential headers) ≡ ok a
    present e = ground arith
