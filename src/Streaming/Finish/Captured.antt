-- ===== src/Streaming/Finish/Captured.antt =====
-- The response that ends a stream changes the model and the usage of the state and nothing else.
use llm_universal_proxy.Prelude.{◌≡◌, refl, ◌∙◌, String, Option, none, some}
use llm_universal_proxy.Json.Value.{Value, get}
use llm_universal_proxy.Streaming.{StreamState, event_str}
use llm_universal_proxy.Streaming.Finish.{
  with_model, capture_responses_model, captured_usage, captured_response,
}

module _ {A : Type 0} (part : StreamState → A)
    (modelless : (s : StreamState) (m : Option String)
      → part (record s { model = m }) ≡ part s) where
  with_model_kept : (m : Option String) (s : StreamState) → part (with_model m s) ≡ part s
  unfolding with_model
  with_model_kept none s = modelless s _
  with_model_kept (some m) s = modelless s _

  pub capture_kept :
      (resp : Value) (s : StreamState) → part (capture_responses_model resp s) ≡ part s
  unfolding capture_responses_model
  capture_kept resp s = with_model_kept (event_str resp "model") s

  module _
      (usageless : (s : StreamState) (u : Option Value)
        → part (record s { usage = u }) ≡ part s) where
    captured_usage_kept : (u : Option Value) (s : StreamState) → part (captured_usage u s) ≡ part s
    unfolding captured_usage
    captured_usage_kept none s = refl
    captured_usage_kept (some u) s = usageless s _

    pub captured_kept :
        (resp : Option Value) (s : StreamState) → part (captured_response resp s) ≡ part s
    unfolding captured_response
    captured_kept none s = refl
    captured_kept (some resp) s =
        captured_usage_kept (get resp "usage") (capture_responses_model resp s)
        ∙ capture_kept resp s
