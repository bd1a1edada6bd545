-- ===== src/Detect/Evidence.antt =====
-- The evidence in a request for the format that is detected.
use llm_universal_proxy.Prelude.{
  String, Bool, true, false, ◌&&◌, ◌≡◌, refl, ◌⊎◌, inl, inr, Option, none, some, List, and_then,
  is_some, branches, arith,
}
use llm_universal_proxy.Json.Value.{Value, get, as_array}
use llm_universal_proxy.Formats.{
  UpstreamFormat, anthropic, open_ai_chat_completions, open_ai_responses,
}
use llm_universal_proxy.Detect.{
  contains, has, has_array, detect_by_path, is_responses_body, has_openai_field, is_claude_body,
  claude_messages, detect_by_body, detect_request_format, or_body,
}

-- What a request that is taken for a format must show.
abbrev pub Evidence : UpstreamFormat → String → Value → Type 0
Evidence open_ai_responses path body =
    (contains path "/openai/v1/responses" ≡ true) ⊎ (has body "input" ≡ true)
Evidence anthropic path body =
    (contains path "/anthropic/v1/messages" ≡ true)
    ⊎ ((has_array body "messages" ≡ true) × (has_openai_field body ≡ false))
Evidence open_ai_chat_completions path body =
    (contains path "/openai/v1/responses" ≡ false)
    × (contains path "/anthropic/v1/messages" ≡ false)
    × (is_responses_body body ≡ false)

responses_input : (body : Value) → is_responses_body body ≡ true → has body "input" ≡ true
unfolding is_responses_body
responses_input body h = ground arith

claude_array :
    (body : Value) (o : Option (List Value)) → claude_messages body o ≡ true → is_some o ≡ true
claude_array body none h = cc
claude_array body (some _) h = refl

array_present : (o : Option Value) → is_some (and_then o as_array) ≡ true → is_some o ≡ true
array_present none h = cc
array_present (some v) h = refl

body-Evidence :
    (path : String) (body : Value)
    → contains path "/openai/v1/responses" ≡ false
    → contains path "/anthropic/v1/messages" ≡ false
    → Evidence (detect_by_body body) path body
unfolding detect_by_body is_claude_body
body-Evidence path body no_responses no_messages =
    branches (λ f. Evidence f path body) (is_responses_body body)
      (λ e. inr (responses_input body e))
      (λ no_input.
        branches (λ f. Evidence f path body) (has_openai_field body)
          (λ _. (no_responses, no_messages, no_input))
          (λ no_field.
            branches (λ f. Evidence f path body) (is_claude_body body)
              (λ claude. inr (claude_array body _ (unfolded claude), no_field))
              (λ _. (no_responses, no_messages, no_input))))
  where
    unfolded :
        is_claude_body body ≡ true
        → claude_messages body (and_then (get body "messages") as_array) ≡ true
    unfolded h = h

-- A request is taken for the Responses format only on its path or with an `input`, and for
-- Anthropic's only on its path or with a `messages` array and none of OpenAI's own fields; one that
-- is taken for Chat Completions is on neither of the other paths, and has no Responses body.
pub detect-Evidence :
    (path : String) (body : Value) → Evidence (detect_request_format path body) path body
unfolding detect_request_format detect_by_path
detect-Evidence path body =
    branches (λ o. Evidence (or_body o body) path body) (contains path "/openai/v1/responses")
      (λ e. inl e)
      (λ no_responses.
        branches (λ o. Evidence (or_body o body) path body) (contains path "/anthropic/v1/messages")
          (λ e. inl e)
          (λ no_messages.
            branches (λ o. Evidence (or_body o body) path body)
              (contains path "/openai/v1/chat/completions" && has_array body "input")
              (λ e.
                inr (array_present (get body "input") (second_holds _ (has_array body "input") e)))
              (λ _. body-Evidence path body no_responses no_messages)))
  where
    second_holds : (a b : Bool) → (a && b) ≡ true → b ≡ true
    second_holds true b h = h
    second_holds false b h = cc
