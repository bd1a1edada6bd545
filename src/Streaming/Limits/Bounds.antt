-- ===== src/Streaming/Limits/Bounds.antt =====
-- How long a stream under the timers can go on: what it forwards, and when it is over.
use llm_universal_proxy.Prelude.{
  ◌≡◌, refl, ◌+◌, ◌≤◌, ◌<◌, ℕ, true, false, List, [], ◌∷◌, is_some, branches, arith, le→leb,
}
use llm_universal_proxy.Streaming.Limits.{
  StreamLimitTimers, Polled, item, failed, ended, pending, ResourceLimitedStream, poll_expired,
  poll_next, after_poll,
}

expired_late :
    (now : ℕ) (t : StreamLimitTimers) → t.max_deadline ≤ now → is_some (poll_expired now t) ≡ true
unfolding poll_expired
expired_late now t h = rw (le→leb t.max_deadline now h) refl

unexpired :
    (now : ℕ) (t : StreamLimitTimers)
    → is_some (poll_expired now t) ≡ false
    → (now < t.max_deadline) × (now < t.idle_deadline)
unfolding poll_expired
unexpired now t h = ground arith

module _ {S B E : Type 0} (poll_inner : ℕ → S → Polled B E × S) where
  -- From the deadline on, a poll ends the stream and does not ask the inner one.
  pub poll_next-late :
      (now : ℕ) (s : ResourceLimitedStream S)
      → s.limit_timers.max_deadline ≤ now
      → poll_next poll_inner now s ≡ (ended, s)
  unfolding poll_next
  poll_next-late now s h = rw (expired_late now s.limit_timers h) refl

  -- The instants of the polls that forward an item, out of those of all polls.
  forwarded_at : Polled B E → ℕ → List ℕ → List ℕ
  forwarded_at (item _) now rest = now ∷ rest
  forwarded_at _ now rest = rest

  unfoldable pub forwarded : List ℕ → ResourceLimitedStream S → List ℕ
  unfolding poll_next forwarded_at
  forwarded [] s = []
  forwarded (now ∷ later) s =
      let (polled, t) = poll_next poll_inner now s in forwarded_at polled now (forwarded later t)

-- Instants before a deadline, each before the idle timeout is over since the one before it.
abbrev pub IsTimely : ℕ → ℕ → ℕ → List ℕ → Type 0
IsTimely max_deadline idle_timeout idle_deadline [] = Unit
IsTimely max_deadline idle_timeout idle_deadline (now ∷ later) =
    (now < max_deadline)
    × (now < idle_deadline)
    × IsTimely max_deadline idle_timeout (now + idle_timeout) later

abbrev pub Timely : StreamLimitTimers → List ℕ → Type 0
Timely t times = IsTimely t.max_deadline t.idle_timeout t.idle_deadline times

module _ {S B E : Type 0} (poll_inner : ℕ → S → Polled B E × S) where
  forwarded_at-Timely :
      (t : StreamLimitTimers) (now : ℕ) (polled : Polled B E) (rest : List ℕ)
      → (now < t.max_deadline) × (now < t.idle_deadline)
      → Timely (after_poll now polled t) rest
      → Timely t (forwarded_at poll_inner polled now rest)
  unfolding forwarded_at
  forwarded_at-Timely t now (item _) rest (a, b) h = (a, b, h)
  forwarded_at-Timely t now (failed _) rest h k = k
  forwarded_at-Timely t now ended rest h k = k
  forwarded_at-Timely t now pending rest h k = k

  -- Whatever the inner stream answers and whenever it is polled, an item is forwarded only before the
  -- longest duration is over, and before the idle timeout is over since the item before it.
  pub forwarded-Timely :
      (times : List ℕ) (s : ResourceLimitedStream S)
      → Timely s.limit_timers (forwarded poll_inner times s)
  unfolding forwarded poll_next forwarded_at
  forwarded-Timely [] s = tt
  forwarded-Timely (now ∷ later) s =
      let t = s.limit_timers in
      let (polled, rest) = poll_inner now s.inner in
      let next : ResourceLimitedStream S = record {
        inner = rest;
        limit_timers = after_poll now polled t;
      } in
      branches
        (λ (r : Polled B E × ResourceLimitedStream S).
          Timely t (forwarded_at poll_inner r.0 now (forwarded poll_inner later r.1)))
        (is_some (poll_expired now t)) (λ _. forwarded-Timely later s)
        λ h.
          forwarded_at-Timely t now polled (forwarded poll_inner later next) (unexpired now t h)
            (forwarded-Timely later next)
