-- ===== src/TrackedBody/Limited.antt =====
-- A tracked body over a stream under its timers does not wait for its drop to be settled.
use llm_universal_proxy.Prelude.{
  ◌≡◌, refl, sym, ap, subst, ◌≤◌, ℕ, Bool, false, List, [], ◌∷◌, ◌++◌, map, ◌⊎◌, inl, inr, is_some,
  branches,
}
use llm_universal_proxy.Telemetry.{Metrics, RequestTracker, error}
use llm_universal_proxy.Streaming.Limits.{
  Polled, item, failed, ended, pending, ResourceLimitedStream, StreamLimitTimers, after_poll,
  poll_expired,
}
use llm_universal_proxy.Streaming.Limits as Limits
use llm_universal_proxy.Streaming.Limits.Bounds.{poll_next-late}
use llm_universal_proxy.TrackedBody.{new}
use llm_universal_proxy.TrackedBody.Settling.{
  Verdict, settled_by, by_status, judged, serve_body, verdict, serve_body-settled,
}

-- A poll's instant, which the timers read, and the time that the request has taken by then.
abbrev pub Polls : Type 0
Polls = List (ℕ × ℕ)

abbrev pub instants : Polls → List ℕ
instants polls = map (λ p. p.0) polls

abbrev pub uncancelled : Polls → List (Bool × ℕ)
uncancelled polls = map (λ p. (false, p.1)) polls

-- One of the polls ends the request: by the status of the response, or by an error of the stream.
abbrev pub EndedBy : ℕ → Polls → Verdict → Type 0
EndedBy status [] v = ⊥
EndedBy status ((now, at) ∷ polls) v =
    ((v ≡ by_status status at) ⊎ (v ≡ (error, 502, at))) ⊎ EndedBy status polls v

kept_deadline :
    {B E : Type 0} (now : ℕ) (polled : Polled B E) (t : StreamLimitTimers)
    → (after_poll now polled t).max_deadline ≡ t.max_deadline
kept_deadline now (item _) t = refl
kept_deadline now (failed _) t = refl
kept_deadline now ended t = refl
kept_deadline now pending t = refl

module _ {S B E : Type 0} (poll_inner : ℕ → S → Polled B E × S) where
  -- The stream under the timers, with the instants of the polls to come.
  abbrev pub poll_at :
      List ℕ × ResourceLimitedStream S → Polled B E × (List ℕ × ResourceLimitedStream S)
  poll_at ([], s) = (pending, ([], s))
  poll_at (now ∷ later, s) =
      ((Limits.poll_next poll_inner now s).0, (later, (Limits.poll_next poll_inner now s).1))

  poll_next-deadline :
      (now : ℕ) (s : ResourceLimitedStream S)
      → (Limits.poll_next poll_inner now s).1.limit_timers.max_deadline
        ≡ s.limit_timers.max_deadline
  unfolding Limits.poll_next
  poll_next-deadline now s =
      branches
        (λ (r : Polled B E × ResourceLimitedStream S).
          r.1.limit_timers.max_deadline ≡ s.limit_timers.max_deadline)
        (is_some (poll_expired now s.limit_timers)) (λ _. refl)
        λ _. kept_deadline now (poll_inner now s.inner).0 s.limit_timers

  judged-EndedBy :
      (status now at : ℕ) (polls : Polls) (polled : Polled B E) (goes_on : Verdict)
      → EndedBy status polls goes_on
      → EndedBy status ((now, at) ∷ polls) (judged poll_at status at polled goes_on)
  unfolding judged
  judged-EndedBy status now at polls (item _) goes_on h = inr h
  judged-EndedBy status now at polls (failed _) goes_on h = inl (inr refl)
  judged-EndedBy status now at polls ended goes_on h = inl (inl refl)
  judged-EndedBy status now at polls pending goes_on h = inr h

  module _ (now at status dropped_at : ℕ) (after : Polls) where
    verdict-EndedBy :
        (before : Polls) (s : ResourceLimitedStream S)
        → s.limit_timers.max_deadline ≤ now
        → let polls = before ++ (now, at) ∷ after in
          EndedBy status
            (before ++ (now, at) ∷ [])
            (verdict poll_at status (uncancelled polls) dropped_at (instants polls, s))
    unfolding verdict judged
    verdict-EndedBy [] s late = inl (
        inl (
          ap
            (λ (r : Polled B E × ResourceLimitedStream S).
              judged poll_at status at r.0
                (verdict poll_at status (uncancelled after) dropped_at (instants after, r.1)))
            (poll_next-late poll_inner now s late)))
    verdict-EndedBy ((now₁, at₁) ∷ before) s late =
        judged-EndedBy status now₁ at₁ (before ++ (now, at) ∷ [])
          (Limits.poll_next poll_inner now₁ s).0 _
          (verdict-EndedBy before (Limits.poll_next poll_inner now₁ s).1
            (subst (λ d. d ≤ now) (sym (poll_next-deadline now₁ s)) late))

  -- A tracked body under the timers of a stream, which the client does not cancel and which is polled
  -- once at or after the longest duration, is settled by that poll or one before it, with the status
  -- of the response or as an error: never as cancelled by its drop, whatever the stream answers.
  pub limited_body-settled :
      (before after : Polls) (now at dropped_at : ℕ) (m : Metrics) (s : ResourceLimitedStream S)
      (t : RequestTracker) (status : ℕ)
      → s.limit_timers.max_deadline ≤ now
      → let polls = before ++ (now, at) ∷ after in
        (v : Verdict) × EndedBy status (before ++ (now, at) ∷ []) v
        × (serve_body poll_at (uncancelled polls) dropped_at m (new (instants polls, s) t status)
            ≡ settled_by v m t)
  limited_body-settled before after now at dropped_at m s t status late =
      let polls : Polls = before ++ (now, at) ∷ after in
      (
        verdict poll_at status (uncancelled polls) dropped_at (instants polls, s),
        verdict-EndedBy now at status dropped_at after before s late,
        serve_body-settled poll_at (uncancelled polls) dropped_at m (instants polls, s) t status,
      )
