-- ===== src/TrackedBody.antt =====
-- src/server/tracked_body.rs: the body of a response under the tracker of its request. A poll gets
-- whether the client's cancellation is there, the answer of the inner stream, and the time that the
-- request has taken; the counters of the telemetry are passed along.
pub mod Limited
pub mod Settling
use llm_universal_proxy.Prelude.{
  ℕ, Bool, true, false, ◌&&◌, Option, none, some, List, [], ◌∷◌, leb, ltb, if◌then◌else◌,
}
use llm_universal_proxy.Telemetry.{
  Metrics, RequestTracker, RequestOutcome, success, error, cancelled, finish_success, finish_error,
  finish_cancelled,
}
use llm_universal_proxy.Streaming.Limits.{Polled, item, failed, ended, pending}

pub record TrackedBodyStream (S : Type 0) : Type 0 where
  pub inner : S
  pub tracker : Option RequestTracker
  pub status : ℕ

-- `TrackedBodyStream::new`; the token of the client is an input of each poll.
abbrev pub new : {S : Type 0} → S → RequestTracker → ℕ → TrackedBodyStream S
new inner tracker status = record { inner = inner; tracker = some tracker; status = status }

-- `tracker.take()`, and how the tracker that was there finishes.
abbrev settle :
    (ℕ → Metrics → RequestTracker → Metrics × RequestTracker)
    → ℕ
    → Metrics
    → Option RequestTracker
    → Metrics
settle finish duration_ms m none = m
settle finish duration_ms m (some t) = (finish duration_ms m t).0

abbrev finish_by_status : ℕ → ℕ → Metrics → RequestTracker → Metrics × RequestTracker
finish_by_status status =
    if leb 200 status && ltb status 400 then finish_success status else finish_error status

module _ {S B E : Type 0} (poll_inner : S → Polled B E × S) where
  -- The counters, the stream, and the answer that the poll gives.
  unfoldable pub after_inner :
      ℕ
      → Metrics
      → TrackedBodyStream S
      → Polled B E × S
      → Metrics × TrackedBodyStream S × Polled B E
  unfolding finish_success finish_error
  after_inner duration_ms m s (item bytes, rest) = (m, record s { inner = rest }, item bytes)
  after_inner duration_ms m s (failed e, rest) = (
    settle (finish_error 502) duration_ms m s.tracker,
    record s { inner = rest; tracker = none },
    failed e,
  )
  after_inner duration_ms m s (ended, rest) = (
    settle (finish_by_status s.status) duration_ms m s.tracker,
    record s { inner = rest; tracker = none },
    ended,
  )
  after_inner duration_ms m s (pending, rest) = (m, record s { inner = rest }, pending)

  unfoldable pub poll_next :
      Bool → ℕ → Metrics → TrackedBodyStream S → Metrics × TrackedBodyStream S × Polled B E
  unfolding after_inner finish_cancelled
  poll_next is_cancelled duration_ms m s =
      if is_cancelled
      then (settle finish_cancelled duration_ms m s.tracker, record s { tracker = none }, ended)
      else after_inner duration_ms m s (poll_inner s.inner)

-- `Drop for TrackedBodyStream`
unfoldable pub drop : {S : Type 0} → ℕ → Metrics → TrackedBodyStream S → Metrics
unfolding finish_cancelled
drop duration_ms m s = settle finish_cancelled duration_ms m s.tracker
