-- ===== src/Wire/Draining.antt =====
-- Taking frames off a buffer: nothing is lost, and the loop for an event ends.
use llm_universal_proxy.Prelude.{
  is_some, true, ℕ, zero, suc, ◌≤◌, ◌<◌, ◌≡◌, refl, sym, ap, true, Option, none, some, [], ◌∷◌,
  ◌++◌, length, take, drop, take-append-drop, length-take, length-append, subst, ◌∙◌, arith,
  Option-cases, ◌⊎◌, inl, inr, and_then, unwrap_or,
}
use mathlib.Core.List.{append_assoc}
use llm_universal_proxy.Json.Value.{Value}
use llm_universal_proxy.Wire.{
  Bytes, Codec, Frame, sse_frame_end, take_one_sse_frame, take_event, take_one_sse_event,
  parse_sse_event_json,
}
use llm_universal_proxy.Wire.Boundary.{sse_frame_end_bounds}

-- What `take_one_sse_frame` answers, by the scan.
unfoldable pub frame_of : Codec → Bytes → Option ℕ → Option (Frame × Bytes)
frame_of z b none = none
frame_of z b (some e) = some (
  record { event_bytes = take e b; event = parse_sse_event_json z (take e b); end = e },
  drop e b,
)

pub take_one-frame_of :
    (z : Codec) (b : Bytes) → take_one_sse_frame z b ≡ frame_of z b (sse_frame_end b)
unfolding take_one_sse_frame frame_of
take_one-frame_of z b = by_end (sse_frame_end b)
  where
    by_end :
        (o : Option ℕ)
        → and_then
            (and_then o (λ e. some (record {
              event_bytes = take e b;
              event = parse_sse_event_json z (take e b);
              end = e;
            })))
            (λ (f : Frame). some (f, drop f.end b))
          ≡ frame_of z b o
    by_end none = refl
    by_end (some e) = refl

-- What a frame that was taken is.
pub record IsTaken (z : Codec) (b : Bytes) (f : Frame) (rest : Bytes) : Type 0 where
  pub whole : f.event_bytes ++ rest ≡ b
  pub parsed : f.event ≡ parse_sse_event_json z f.event_bytes
  pub ends : sse_frame_end b ≡ some f.end
  pub measured : f.end ≡ length f.event_bytes

frame_of-IsTaken :
    (z : Codec) (b : Bytes) (o : Option ℕ) (f : Frame) (rest : Bytes)
    → sse_frame_end b ≡ o
    → frame_of z b o ≡ some (f, rest)
    → IsTaken z b f rest
unfolding frame_of
frame_of-IsTaken z b none f rest e h = cc
frame_of-IsTaken z b (some n) f rest e h =
    let f' : Frame = record {
      event_bytes = take n b;
      event = parse_sse_event_json z (take n b);
      end = n;
    } in
    let taken : IsTaken z b f' (drop n b) = record {
      whole = take-append-drop n b;
      parsed = refl;
      ends = e;
      measured = omega (arith, length-take n b, (sse_frame_end_bounds b n e).1);
    } in
    subst (λ (p : Frame × Bytes). IsTaken z b p.0 p.1) (ap (λ o. unwrap_or o (f', drop n b)) h)
      taken

-- A frame that is taken and the buffer that is left are the buffer, the frame ends where the scan
-- says, and its event is what its bytes parse to.
pub take_one_sse_frame-IsTaken :
    (z : Codec) (b : Bytes) (f : Frame) (rest : Bytes)
    → take_one_sse_frame z b ≡ some (f, rest)
    → IsTaken z b f rest
take_one_sse_frame-IsTaken z b f rest h =
    frame_of-IsTaken z b (sse_frame_end b) f rest refl (sym (take_one-frame_of z b) ∙ h)

take_one-none : (z : Codec) (b : Bytes) → take_one_sse_frame z b ≡ none → sse_frame_end b ≡ none
unfolding frame_of
take_one-none z b h = elim (Option-cases (sse_frame_end b)) [
  | inl e ↦ e
  | inr (n, e) ↦ cc (rw (take_one-frame_of z b, e) at h)
]

shorter :
    (z : Codec) (b : Bytes) (f : Frame) (rest : Bytes)
    → take_one_sse_frame z b ≡ some (f, rest)
    → length rest < length b
shorter z b f rest h =
    let t = take_one_sse_frame-IsTaken z b f rest h in
    omega (
      arith,
      (sse_frame_end_bounds b f.end t.ends).0,
      t.measured,
      ap length t.whole,
      length-append f.event_bytes rest,
    )

-- What a run of the loop gives: the rest of the buffer, an event if there is one, and else no
-- complete frame.
pub record IsDrained (b : Bytes) (r : Bytes × Option Value) : Type 0 where
  pub skipped : Bytes
  pub splits : skipped ++ r.0 ≡ b
  pub ended : (is_some r.1 ≡ true) ⊎ (sse_frame_end r.0 ≡ none)

take_event-IsDrained :
    (z : Codec) (n : ℕ) (b : Bytes) → length b ≤ n → IsDrained b (take_event z n b)
unfolding take_event
take_event-IsDrained z zero [] h = record {
  skipped = [];
  splits = refl;
  ended = inr (unfold sse_frame_end in refl);
}
take_event-IsDrained z zero (c ∷ b) h = absurd (omega arith)
take_event-IsDrained z (suc n) b h = elim (Option-cases (take_one_sse_frame z b)) [
  | inl e ↦
      rw (e, take_event) (record { skipped = []; splits = refl; ended = inr (take_one-none z b e) })
  | inr ((f, rest), e) ↦
      let taken = take_one_sse_frame-IsTaken z b f rest e in
      elim (Option-cases f.event) [
        | inr (v, ev) ↦
            rw (e, ev, take_event)
              (record { skipped = f.event_bytes; splits = taken.whole; ended = inl refl })
        | inl ev ↦
            let later = take_event-IsDrained z n rest (omega (arith, shorter z b f rest e)) in
            rw (e, ev, take_event)
              (record {
                skipped = f.event_bytes ++ later.skipped;
                splits = rw (append_assoc, later.splits, taken.whole);
                ended = later.ended;
              })
      ]
]

-- The loop ends by its own tests: it returns an event, or leaves a buffer with no complete frame,
-- and what it leaves is the end of what it was given.
pub take_one_sse_event-IsDrained : (z : Codec) (b : Bytes) → IsDrained b (take_one_sse_event z b)
unfolding take_one_sse_event
take_one_sse_event-IsDrained z b = take_event-IsDrained z (length b) b (omega arith)
