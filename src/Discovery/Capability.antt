-- ===== src/Discovery/Capability.antt =====
-- What a discovered upstream can be sent.
use llm_universal_proxy.Prelude.{
  ℕ, String, true, false, ◌≡◌, refl, Option, some, List, [], ◌∷◌, is_some, any, arith, branches,
  Bool-cases, inl, inr, sym, ap, subst, ◌∙◌, if◌then◌else◌,
}
use llm_universal_proxy.Formats.{
  UpstreamFormat, anthropic, open_ai_chat_completions, open_ai_responses, is_same,
}
use llm_universal_proxy.Discovery.{
  UpstreamCapability, Probe, contains, default_target_order, first_supported, with_target,
  from_supported, upstream_format_for_request, should_passthrough, is_available, is_support,
  discovered_upstream, probe, probe_each, discover_supported_formats,
}

module _ (send : Probe → Option ℕ) (base_url : String) (api_key : Option String)
    (extra : List (String × String)) where
  -- A format is discovered exactly where the probe for it got a status that indicates support.
  pub discover_supported_formats_lem :
      (f : UpstreamFormat)
      → contains f (discover_supported_formats send base_url api_key extra)
        ≡ is_support (send (probe base_url api_key extra f))
  unfolding discover_supported_formats probe_each
  discover_supported_formats_lem anthropic = ground arith
  discover_supported_formats_lem open_ai_chat_completions = ground arith
  discover_supported_formats_lem open_ai_responses = ground arith

-- The first of the targets in order is chosen: Chat Completions, then Responses, then Anthropic's.
abbrev pub best : List UpstreamFormat → UpstreamFormat
best supported =
    if contains open_ai_chat_completions supported
    then open_ai_chat_completions
    else if contains open_ai_responses supported
    then open_ai_responses
    else anthropic

target_found :
    (f : UpstreamFormat) (fs : List UpstreamFormat)
    → first_supported (f ∷ fs) default_target_order ≡ some (best (f ∷ fs))
target_found anthropic fs = ground arith
target_found open_ai_chat_completions fs = refl
target_found open_ai_responses fs = ground arith

best-supported :
    (f : UpstreamFormat) (fs : List UpstreamFormat) → contains (best (f ∷ fs)) (f ∷ fs) ≡ true
best-supported anthropic fs = ground arith
best-supported open_ai_chat_completions fs = refl
best-supported open_ai_responses fs = ground arith

one_known :
    (f : UpstreamFormat) (fs : List UpstreamFormat)
    → true ≡ any (λ g. contains g (f ∷ fs)) default_target_order
one_known anthropic fs = ground arith
one_known open_ai_chat_completions fs = ground arith
one_known open_ai_responses fs = ground arith

-- An upstream is available exactly where some format was discovered, and then it has a capability.
pub discovered_upstream-IsAvailable :
    (supported : List UpstreamFormat)
    → (is_available (discovered_upstream supported).availability
        ≡ is_some (discovered_upstream supported).capability)
      × (is_available (discovered_upstream supported).availability
          ≡ any (λ f. contains f supported) default_target_order)
unfolding discovered_upstream from_supported
discovered_upstream-IsAvailable [] = (refl, refl)
discovered_upstream-IsAvailable (f ∷ fs) = rw (target_found f fs) (refl, one_known f fs)

is_same_refl : (f : UpstreamFormat) → true ≡ is_same f f
is_same_refl anthropic = refl
is_same_refl open_ai_chat_completions = refl
is_same_refl open_ai_responses = refl

is_same_sound : (f g : UpstreamFormat) → is_same f g ≡ true → f ≡ g
is_same_sound f g h = ground arith

-- A member and a non-member differ.
member_differs :
    (f g : UpstreamFormat) (fs : List UpstreamFormat)
    → contains f fs ≡ true
    → contains g fs ≡ false
    → false ≡ is_same f g
member_differs f g fs m n = elim (Bool-cases (is_same f g)) [
  | inl same ↦ absurd (true_false (sym m ∙ ap (λ x. contains x fs) (is_same_sound f g same) ∙ n))
  | inr e ↦ sym e
]
  where
    true_false : true ≡ false → ⊥
    true_false h = cc

abbrev Served : List UpstreamFormat → UpstreamFormat → UpstreamFormat → Type 0
Served supported client out =
    (contains out supported ≡ true) × (contains client supported ≡ is_same out client)

served :
    (f : UpstreamFormat) (fs : List UpstreamFormat) (client : UpstreamFormat)
    → Served (f ∷ fs) client (if contains client (f ∷ fs) then client else best (f ∷ fs))
served f fs client =
    branches (Served (f ∷ fs) client) (contains client (f ∷ fs)) (λ e. (e, e ∙ is_same_refl client))
      (λ e. (
        best-supported f fs,
        e ∙ member_differs (best (f ∷ fs)) client (f ∷ fs) (best-supported f fs) e,
      ))

-- A request to an upstream with discovered formats goes out in a format that the upstream supports,
-- and it is passed through exactly where that is the client's own.
pub from_supported-IsServed :
    (supported : List UpstreamFormat) (c : UpstreamCapability) (client : UpstreamFormat)
    → from_supported supported ≡ some c
    → (contains (upstream_format_for_request c client) supported ≡ true)
      × (should_passthrough c client ≡ is_same (upstream_format_for_request c client) client)
unfolding from_supported upstream_format_for_request should_passthrough
from_supported-IsServed [] c client h = cc
from_supported-IsServed (f ∷ fs) c client h =
    subst
      (λ k.
        (contains (upstream_format_for_request k client) (f ∷ fs) ≡ true)
        × (should_passthrough k client ≡ is_same (upstream_format_for_request k client) client))
      (chosen h) (served f fs client)
  where
    chosen :
        with_target (f ∷ fs) (first_supported (f ∷ fs) default_target_order) ≡ some c
        → record { supported = f ∷ fs; default_target = best (f ∷ fs) } ≡ c
    chosen e =
        let found : with_target (f ∷ fs) (some (best (f ∷ fs))) ≡ some c =
          rw (target_found f fs) at e in
        cc
