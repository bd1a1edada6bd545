-- ===== src/Headers/Static.antt =====
-- The static headers of an upstream, and those that they leave alone.
use llm_universal_proxy.Prelude.{
  String, Bool, true, false, ◌≡◌, refl, ap, ◌∙◌, List, [], ◌∷◌, ◌++◌, All, arith, str_eq, eq_iff,
  eq_refl, eq_ignore_ascii_case, to_ascii_lowercase, to_lowercase, Bool-cases, inl, inr, branches,
  if◌then◌else◌,
}
use llm_universal_proxy.Formats.{UpstreamFormat}
use llm_universal_proxy.Headers.{
  Headers, names, add_defaults, upsert_header, add_extra, default_protocol_headers,
  apply_upstream_headers,
}

-- The values of the fields of a name.
abbrev pub values : String → Headers → List String
values a [] = []
values a ((n, v) ∷ headers) = if str_eq n a then v ∷ values a headers else values a headers

append-nil : (xs : List String) → xs ++ [] ≡ xs
append-nil [] = refl
append-nil (x ∷ xs) = ap (◌∷◌ x) (append-nil xs)

values-append : (a : String) (h k : Headers) → values a (h ++ k) ≡ values a h ++ values a k
values-append a [] k = refl
values-append a ((n, v) ∷ h) k = ground (arith, values-append a h k)

module _ (a : String) where
  same_name : (n : String) → eq_ignore_ascii_case a n ≡ false → str_eq n a ≡ false
  same_name n h = ground (arith, eq_iff n a, eq_refl (to_ascii_lowercase a))

  other_name :
      (n name : String)
      → eq_ignore_ascii_case n name ≡ true
      → eq_ignore_ascii_case a name ≡ false
      → str_eq n a ≡ false
  other_name n name e h = elim (Bool-cases (str_eq n a)) [
    | inr d ↦ d
    | inl same ↦
        absurd (contradicts (ap (λ x. eq_ignore_ascii_case x name) ((eq_iff n a).0 same)) e h)
  ]
    where
      contradicts : {b c : Bool} → b ≡ c → b ≡ true → c ≡ false → ⊥
      contradicts p q r = cc

  values-upsert :
      (headers : Headers) (name value : String)
      → eq_ignore_ascii_case a name ≡ false
      → values a (upsert_header headers name value) ≡ values a headers
  unfolding upsert_header
  values-upsert [] name value h = rw (same_name name h) refl
  values-upsert ((n, v) ∷ headers) name value h =
      branches (λ k. values a k ≡ values a ((n, v) ∷ headers)) (eq_ignore_ascii_case n name)
        (λ e. rw (other_name n name e h) refl)
        (λ _.
          ap (λ rest. if str_eq n a then v ∷ rest else rest) (values-upsert headers name value h))

  values-add_extra :
      (headers extra : Headers)
      → All (λ x. eq_ignore_ascii_case a (to_lowercase x.0) ≡ false) extra
      → values a (add_extra headers extra) ≡ values a headers
  unfolding add_extra
  values-add_extra headers [] h = refl
  values-add_extra headers ((name, value) ∷ rest) (h, more) =
      values-add_extra (upsert_header headers (to_lowercase name) value) rest more
      ∙ values-upsert headers (to_lowercase name) value h

  values-add_defaults :
      (headers defaults : Headers)
      → All (λ x. str_eq x.0 a ≡ false) defaults
      → values a (add_defaults headers defaults) ≡ values a headers
  unfolding add_defaults
  values-add_defaults headers [] h = refl
  values-add_defaults headers ((name, value) ∷ rest) (h, more) =
      branches (λ k. values a (add_defaults k rest) ≡ values a headers) (names name headers)
        (λ _. values-add_defaults headers rest more)
        (λ _.
          values-add_defaults (headers ++ (name, value) ∷ []) rest more
          ∙ values-append a headers ((name, value) ∷ [])
          ∙ rw h (append-nil (values a headers)))

  -- Applying the headers of an upstream keeps each field, in its place among those of its name,
  -- whose name is neither that of a default of the format nor that of a configured header, the case
  -- of ASCII letters aside and the configured names lowered.
  pub values-apply_upstream_headers :
      (headers extra : Headers) (format : UpstreamFormat)
      → All (λ x. str_eq x.0 a ≡ false) (default_protocol_headers format)
      → All (λ x. eq_ignore_ascii_case a (to_lowercase x.0) ≡ false) extra
      → values a (apply_upstream_headers headers extra format) ≡ values a headers
  unfolding apply_upstream_headers
  values-apply_upstream_headers headers extra format d h =
      values-add_extra (add_defaults headers (default_protocol_headers format)) extra h
      ∙ values-add_defaults headers (default_protocol_headers format) d
