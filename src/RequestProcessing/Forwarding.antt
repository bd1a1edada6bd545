-- ===== src/RequestProcessing/Forwarding.antt =====
-- What holds of a request that is classified as needing no transformation.
use llm_universal_proxy.Prelude.{
  ◌≡◌, refl, ap, String, Bool, true, false, not, ◌&&◌, Option, none, some, ◌⊎◌, inl, inr, arith,
  eq_iff, and_then, Bool-cases, if◌then◌else◌,
}
use llm_universal_proxy.Json.Value.{Fields, field, as_str, as_object}
use llm_universal_proxy.Formats.{
  UpstreamFormat, anthropic, open_ai_chat_completions, open_ai_responses, is_same,
}
use llm_universal_proxy.RequestProcessing.{
  transformation_not_required, transformation_required, StateBridgeModifier, off, is_off,
  RequestProcessingInput, text_is, is_true, has_model, is_native_model_less, model_differs,
  native_responses_model_less_stateful_passthrough_without_model_insertion,
  model_body_mutation_required, same_protocol_request_mutation_required, by_protocol,
  request_transformation_required, openai_chat_has_instruction_roles,
  responses_input_has_developer_role, responses_stateful_request_controls_present,
  classify_request_processing,
}

-- A body that is an object names the model; of another body nothing is said.
abbrev pub Named : String → Option Fields → Type 0
Named m none = Unit
Named m (some o) = and_then (field "model" o) as_str ≡ some m

-- The body names the upstream's model, or is a stateful Responses request that names none.
abbrev pub NamesModel : RequestProcessingInput → Type 0
NamesModel i =
    Named i.upstream_model (as_object i.body)
    ⊎ ((has_model i.body ≡ some false)
        × (responses_stateful_request_controls_present i.body ≡ true))

-- None of the roles that the classification looks for.
abbrev pub HasPlainRoles : UpstreamFormat → RequestProcessingInput → Type 0
HasPlainRoles open_ai_chat_completions i = openai_chat_has_instruction_roles i.body ≡ false
HasPlainRoles open_ai_responses i = (i.stream && responses_input_has_developer_role i.body) ≡ false
HasPlainRoles anthropic i = Unit

pub record IsForwardable (i : RequestProcessingInput) : Type 0 where
  pub format : i.client_format ≡ i.upstream_format
  pub bridge : i.state_bridge ≡ off
  pub stream_kept : i.forced_stream ≡ false
  pub policy : i.route_policy_requires_body_mutation ≡ false
  pub model : NamesModel i
  pub roles : HasPlainRoles i.client_format i

same_format : (a b : UpstreamFormat) → is_same a b ≡ true → a ≡ b
same_format a b h = ground arith

off_bridge : (m : StateBridgeModifier) → is_off m ≡ true → m ≡ off
off_bridge m h = ground arith

text_is-eq : (o : Option String) (m : String) → text_is o m ≡ true → o ≡ some m
text_is-eq none m h = cc
text_is-eq (some s) m h = ap some ((eq_iff s m).0 h)

not-false : (b : Bool) → not b ≡ false → b ≡ true
not-false true h = refl
not-false false h = cc

model_same :
    (m : String) (o : Fields)
    → model_differs m (some o) ≡ false
    → and_then (field "model" o) as_str ≡ some m
model_same m o h = text_is-eq (and_then (field "model" o) as_str) m (not-false _ h)

named : (m : String) (o : Option Fields) → model_differs m o ≡ false → Named m o
named m none h = tt
named m (some o) h = model_same m o h

without_model : (o : Option Bool) → is_true (and_then o (λ b. some (not b))) ≡ true → o ≡ some false
without_model none h = cc
without_model (some true) h = cc
without_model (some false) h = refl

stateful_model_less :
    (i : RequestProcessingInput)
    → native_responses_model_less_stateful_passthrough_without_model_insertion i ≡ true
    → (has_model i.body ≡ some false) × (responses_stateful_request_controls_present i.body ≡ true)
unfolding native_responses_model_less_stateful_passthrough_without_model_insertion
stateful_model_less i h =
    (without_model (has_model i.body) (absent (has_model i.body) h), ground arith)
  where
    absent :
        (o : Option Bool)
        → is_native_model_less i
            && is_true (and_then o (λ b. some (not b)))
            && responses_stateful_request_controls_present i.body
          ≡ true
        → is_true (and_then o (λ b. some (not b))) ≡ true
    absent o e = ground arith

names_model : (i : RequestProcessingInput) → model_body_mutation_required i ≡ false → NamesModel i
unfolding model_body_mutation_required
names_model i h =
    elim (Bool-cases (native_responses_model_less_stateful_passthrough_without_model_insertion i)) [
      | inl e ↦ inr (stateful_model_less i e)
      | inr e ↦ inl (named i.upstream_model (as_object i.body) (kept e))
    ]
  where
    kept :
        native_responses_model_less_stateful_passthrough_without_model_insertion i ≡ false
        → model_differs i.upstream_model (as_object i.body) ≡ false
    kept e = ground arith

by_protocol-HasPlainRoles :
    (f : UpstreamFormat) (i : RequestProcessingInput) → by_protocol f i ≡ false → HasPlainRoles f i
unfolding by_protocol
by_protocol-HasPlainRoles open_ai_chat_completions i h = ground arith
by_protocol-HasPlainRoles open_ai_responses i h = h
by_protocol-HasPlainRoles anthropic i h = tt

not_required :
    (b : Bool)
    → (if b then transformation_required else transformation_not_required)
      ≡ transformation_not_required
    → b ≡ false
not_required b e = ground arith

pub untransformed :
    (i : RequestProcessingInput)
    → (classify_request_processing i).request_processing ≡ transformation_not_required
    → request_transformation_required i ≡ false
unfolding classify_request_processing
untransformed i h = not_required _ h

-- The two tests on the protocol are off.
pub same_protocol :
    (i : RequestProcessingInput)
    → request_transformation_required i ≡ false
    → (i.client_format ≡ i.upstream_format) × (by_protocol i.client_format i ≡ false)
unfolding request_transformation_required same_protocol_request_mutation_required
same_protocol i all =
    let same : is_same i.client_format i.upstream_format ≡ true = ground arith in
    (same_format i.client_format i.upstream_format same, ground arith)

-- A request that is classified as needing no transformation goes out in the format that it came in,
-- with no state bridge, no forced stream and no route policy to apply. Where its body is an object,
-- that names the model, or else the body is that of a stateful Responses request that names none. A
-- Chat Completions request has no instruction roles, and a streamed Responses request no developer
-- role.
pub classify-IsForwardable :
    (i : RequestProcessingInput)
    → (classify_request_processing i).request_processing ≡ transformation_not_required
    → IsForwardable i
unfolding request_transformation_required
classify-IsForwardable i h =
    let all : request_transformation_required i ≡ false = untransformed i h in
    let (format, protocol) = same_protocol i all in
    record {
      format = format;
      bridge = off_bridge i.state_bridge (ground arith);
      stream_kept = ground arith;
      policy = ground arith;
      model = names_model i (ground arith);
      roles = by_protocol-HasPlainRoles i.client_format i protocol;
    }
