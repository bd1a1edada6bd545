-- ===== src/Streaming/Limits.antt =====
-- src/streaming/stream.rs: the timers of a stream, and the stream that passes bytes through under
-- them. An instant is a number of nanoseconds; a `Sleep` is ready from its deadline on. The inner
-- stream is generic in the source: it is the parameter `poll_inner`, its answer to a poll.
pub mod Bounds
use llm_universal_proxy.Prelude.{
  ◌+◌, ◌*◌, ℕ, String, Bool, Option, none, some, List, [], ◌∷◌, leb, is_some, if◌then◌else◌,
}

abbrev sse_frame_too_large_code : String
sse_frame_too_large_code = "upstream_sse_frame_too_large"

abbrev stream_idle_timeout_code : String
stream_idle_timeout_code = "upstream_stream_idle_timeout"

abbrev stream_max_duration_code : String
stream_max_duration_code = "upstream_stream_max_duration_exceeded"

abbrev stream_max_events_code : String
stream_max_events_code = "upstream_stream_event_limit_exceeded"

abbrev stream_state_too_large_code : String
stream_state_too_large_code = "upstream_stream_state_too_large"

pub data StreamResourceLimit : Type 0 where
  sse_frame_too_large idle_timeout max_duration max_events state_too_large : StreamResourceLimit

abbrev pub code : StreamResourceLimit → String
code sse_frame_too_large = sse_frame_too_large_code
code idle_timeout = stream_idle_timeout_code
code max_duration = stream_max_duration_code
code max_events = stream_max_events_code
code state_too_large = stream_state_too_large_code

abbrev pub nanos_per_sec : ℕ
nanos_per_sec = 1000000000

pub record StreamLimitTimers : Type 0 where
  pub idle_timeout : ℕ
  pub idle_deadline : ℕ
  pub max_deadline : ℕ

-- `StreamLimitTimers::new` at the instant `now`.
abbrev pub new_timers : ℕ → ℕ → ℕ → StreamLimitTimers
new_timers idle_secs max_secs now = record {
  idle_timeout = idle_secs * nanos_per_sec;
  idle_deadline = now + idle_secs * nanos_per_sec;
  max_deadline = now + max_secs * nanos_per_sec;
}

abbrev pub reset_idle : ℕ → StreamLimitTimers → StreamLimitTimers
reset_idle now t = record t { idle_deadline = now + t.idle_timeout }

unfoldable pub poll_expired : ℕ → StreamLimitTimers → Option StreamResourceLimit
poll_expired now t =
    if leb t.max_deadline now
    then some max_duration
    else if leb t.idle_deadline now
    then some idle_timeout
    else none

-- `Poll<Option<Result<Bytes, Error>>>`
pub data Polled (B E : Type 0) : Type 0 where
  item : B → Polled B E
  failed : E → Polled B E
  ended pending : Polled B E

-- What a poll of the inner stream leaves of the timers.
abbrev pub after_poll : {B E : Type 0} → ℕ → Polled B E → StreamLimitTimers → StreamLimitTimers
after_poll now (item _) t = reset_idle now t
after_poll now _ t = t

pub record ResourceLimitedStream (S : Type 0) : Type 0 where
  pub inner : S
  pub limit_timers : StreamLimitTimers

module _ {S B E : Type 0} (poll_inner : ℕ → S → Polled B E × S) where
  -- `ResourceLimitedStream::poll_next` at the instant `now`.
  unfoldable pub poll_next : ℕ → ResourceLimitedStream S → Polled B E × ResourceLimitedStream S
  unfolding poll_expired
  poll_next now s =
      if is_some (poll_expired now s.limit_timers)
      then (ended, s)
      else (let (polled, rest) = poll_inner now s.inner in
          (polled, record { inner = rest; limit_timers = after_poll now polled s.limit_timers }))
