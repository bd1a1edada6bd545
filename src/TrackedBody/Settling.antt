-- ===== src/TrackedBody/Settling.antt =====
-- The request of a tracked body is settled exactly once, with the outcome of what came first.
use llm_universal_proxy.Prelude.{
  ◌≡◌, refl, ◌∙◌, ℕ, Bool, true, false, ◌&&◌, none, some, List, [], ◌∷◌, leb, ltb, if◌then◌else◌,
}
use llm_universal_proxy.Telemetry.{
  Metrics, RequestTracker, RequestOutcome, success, error, cancelled, finish_with, finish_success,
  finish_error, finish_cancelled,
}
use llm_universal_proxy.Streaming.Limits.{Polled, item, failed, ended, pending}
use llm_universal_proxy.TrackedBody.{
  TrackedBodyStream, new, settle, finish_by_status, after_inner, poll_next, drop,
}

-- How a request ends: the outcome, the status that is recorded, and the time that it took.
abbrev pub Verdict : Type 0
Verdict = RequestOutcome × ℕ × ℕ

abbrev pub settled_by : Verdict → Metrics → RequestTracker → Metrics
settled_by (outcome, status, duration_ms) m t = (finish_with outcome status duration_ms m t).0

abbrev pub by_status : ℕ → ℕ → Verdict
by_status status duration_ms =
    (if leb 200 status && ltb status 400 then success else error, status, duration_ms)

by_status-settles :
    (ok : Bool) (status at : ℕ) (m : Metrics) (t : RequestTracker)
    → settle (if ok then finish_success status else finish_error status) at m (some t)
      ≡ settled_by (if ok then success else error, status, at) m t
unfolding finish_success finish_error
by_status-settles true status at m t = refl
by_status-settles false status at m t = refl

module _ {S B E : Type 0} (poll_inner : S → Polled B E × S) where
  unfoldable pub judged : ℕ → ℕ → Polled B E → Verdict → Verdict
  judged status at (item _) goes_on = goes_on
  judged status at (failed _) goes_on = (error, 502, at)
  judged status at ended goes_on = by_status status at
  judged status at pending goes_on = goes_on

  -- Polls, each with the cancellation and the time, and the drop of the body at the end.
  unfoldable pub serve_body : List (Bool × ℕ) → ℕ → Metrics → TrackedBodyStream S → Metrics
  unfolding poll_next drop
  serve_body [] dropped_at m s = drop dropped_at m s
  serve_body ((is_cancelled, at) ∷ later) dropped_at m s =
      let (next, t, _) = poll_next poll_inner is_cancelled at m s in
      serve_body later dropped_at next t

  -- The outcome: of the first cancellation, error or end, or else of the drop.
  unfoldable pub verdict : ℕ → List (Bool × ℕ) → ℕ → S → Verdict
  unfolding judged
  verdict status [] dropped_at s = (cancelled, 499, dropped_at)
  verdict status ((is_cancelled, at) ∷ later) dropped_at s =
      let goes_on = verdict status later dropped_at (poll_inner s).1 in
      if is_cancelled then (cancelled, 499, at) else judged status at (poll_inner s).0 goes_on

  -- Without a tracker there is nothing left to settle.
  untracked-after :
      (at : ℕ) (m : Metrics) (s : TrackedBodyStream S) (r : Polled B E × S)
      → s.tracker ≡ none
      → ((after_inner poll_inner at m s r).0 ≡ m)
        × ((after_inner poll_inner at m s r).1.tracker ≡ none)
  unfolding after_inner
  untracked-after at m s (item _, rest) h = (refl, h)
  untracked-after at m s (failed _, rest) h = (rw h refl, refl)
  untracked-after at m s (ended, rest) h = (rw h refl, refl)
  untracked-after at m s (pending, rest) h = (refl, h)

  untracked-poll :
      (is_cancelled : Bool) (at : ℕ) (m : Metrics) (s : TrackedBodyStream S)
      → s.tracker ≡ none
      → ((poll_next poll_inner is_cancelled at m s).0 ≡ m)
        × ((poll_next poll_inner is_cancelled at m s).1.tracker ≡ none)
  unfolding poll_next
  untracked-poll true at m s h = (rw h refl, refl)
  untracked-poll false at m s h = untracked-after at m s (poll_inner s.inner) h

  untracked :
      (polls : List (Bool × ℕ)) (dropped_at : ℕ) (m : Metrics) (s : TrackedBodyStream S)
      → s.tracker ≡ none
      → serve_body polls dropped_at m s ≡ m
  unfolding serve_body drop
  untracked [] dropped_at m s h = rw h refl
  untracked ((is_cancelled, at) ∷ later) dropped_at m s h =
      let (same, gone) = untracked-poll is_cancelled at m s h in
      untracked later dropped_at _ (poll_next poll_inner is_cancelled at m s).1 gone ∙ same

  module _ (later : List (Bool × ℕ)) (dropped_at at : ℕ) (m : Metrics) (t : RequestTracker)
      (status : ℕ)
      (goes_on : (s : S)
        → serve_body later dropped_at m (new s t status)
          ≡ settled_by (verdict status later dropped_at s) m t) where
    after-settled :
        (s : S) (r : Polled B E × S)
        → serve_body later dropped_at
            (after_inner poll_inner at m (new s t status) r).0
            (after_inner poll_inner at m (new s t status) r).1
          ≡ settled_by (judged status at r.0 (verdict status later dropped_at r.1)) m t
    unfolding after_inner judged finish_error
    after-settled s (item _, rest) = goes_on rest
    after-settled s (failed _, rest) =
        untracked later dropped_at (settle (finish_error 502) at m (some t)) _ refl
    after-settled s (ended, rest) =
        untracked later dropped_at (settle (finish_by_status status) at m (some t)) _ refl
        ∙ by_status-settles (leb 200 status && ltb status 400) status at m t
    after-settled s (pending, rest) = goes_on rest

  -- However a body is polled, and whenever the client cancels, its request is settled exactly once:
  -- by the first cancellation, error or end that a poll sees, or else by the drop of the body.
  pub serve_body-settled :
      (polls : List (Bool × ℕ)) (dropped_at : ℕ) (m : Metrics) (inner : S) (t : RequestTracker)
      (status : ℕ)
      → serve_body polls dropped_at m (new inner t status)
        ≡ settled_by (verdict status polls dropped_at inner) m t
  unfolding serve_body verdict poll_next drop finish_cancelled
  serve_body-settled [] dropped_at m inner t status = refl
  serve_body-settled ((true, at) ∷ later) dropped_at m inner t status =
      untracked later dropped_at (settle finish_cancelled at m (some t)) _ refl
  serve_body-settled ((false, at) ∷ later) dropped_at m inner t status =
      after-settled later dropped_at at m t status
        (λ s. serve_body-settled later dropped_at m s t status) inner (poll_inner inner)
