-- ===== src/Wire/RoundTrip.antt =====
-- An event that is formatted is one frame, and parses to the value that was formatted.
use llm_universal_proxy.Prelude.{
  ℕ, zero, suc, ◌+◌, ◌<◌, ◌≡◌, ◌≢◌, refl, ap, false, some, [], ◌∷◌, ◌++◌, length, length-append,
  ◌∙◌, take, drop, All, arith,
}
use mathlib.Core.List.{append_assoc}
use llm_universal_proxy.Json.Value.{Value}
use llm_universal_proxy.Wire.{
  Bytes, bytes, Codec, Frame, lines, frame_end_from, sse_frame_end, take_one_sse_frame,
  take_one_sse_event, take_event, parse_sse_event_json, format_sse_data, data_lines, parse_data,
  join_lines, same_bytes, is_blank,
}
use llm_universal_proxy.Wire.Boundary.{sse_frame_end_bounds}
use llm_universal_proxy.Wire.Draining.{frame_of, take_one-frame_of}

-- A byte that ends no line.
abbrev pub InLine : ℕ → Type 0
InLine c = (c ≢ 10) × (c ≢ 13)

frame_end_from_text :
    (i : ℕ) (t rest : Bytes)
    → All InLine t
    → frame_end_from i (t ++ b'\n' ∷ b'\n' ∷ rest) ≡ some (i + length t + 2)
unfolding frame_end_from
frame_end_from_text i [] rest h = ap some (omega arith)
frame_end_from_text i (c ∷ []) rest h = ground (arith, frame_end_from_text (i + 1) [] rest h.1)
frame_end_from_text i (c ∷ d ∷ t) rest h =
    ground (arith, frame_end_from_text (i + 1) (d ∷ t) rest h.1)

lines_text : (t : Bytes) → All InLine t → lines (t ++ b'\n' ∷ b'\n' ∷ []) ≡ t ∷ [] ∷ []
unfolding lines
lines_text [] h = refl
lines_text (c ∷ t) h = ground (arith, lines_text t h.1)

append-InLine : (s t : Bytes) → All InLine s → All InLine t → All InLine (s ++ t)
append-InLine [] t hs ht = ht
append-InLine (c ∷ s) t hs ht = (hs.0, append-InLine s t hs.1 ht)

-- What the serialiser gives for a value: a text on one line, which reads back as the value, and is
-- neither blank nor the mark of the end.
pub record IsPrinted (z : Codec) (v : Value) (t : Bytes) : Type 0 where
  pub printed : z.to_string v ≡ some t
  pub one_line : All InLine t
  pub reads : z.from_str t ≡ some v
  pub not_blank : is_blank t ≡ false
  pub not_done : same_bytes t (bytes "[DONE]") ≡ false

prefix-InLine : All InLine (bytes "data: ")
prefix-InLine = ground arith

data_text : (t : Bytes) → Bytes
data_text t = bytes "data: " ++ t

format-text :
    (z : Codec) (v : Value) (t : Bytes)
    → z.to_string v ≡ some t
    → format_sse_data z v ≡ data_text t ++ b'\n' ∷ b'\n' ∷ []
unfolding format_sse_data data_text
format-text z v t h = simp (h, append_assoc)

data_text-InLine : (t : Bytes) → All InLine t → All InLine (data_text t)
unfolding data_text
data_text-InLine t h = append-InLine (bytes "data: ") t prefix-InLine h

-- A formatted event is exactly the first frame of a buffer that begins with it.
pub sse_frame_end-format :
    (z : Codec) (v : Value) (t rest : Bytes)
    → IsPrinted z v t
    → sse_frame_end (format_sse_data z v ++ rest) ≡ some (length (format_sse_data z v))
unfolding sse_frame_end
sse_frame_end-format z v t rest p =
    rw (format-text z v t p.printed, append_assoc)
      (frame_end_from_text 0 (data_text t) rest (data_text-InLine t p.one_line)
        ∙ ap some (omega (arith, length-append (data_text t) (b'\n' ∷ b'\n' ∷ []))))

parse_data_lines :
    (z : Codec) (v : Value) (t : Bytes)
    → IsPrinted z v t
    → parse_data z (data_lines (data_text t ∷ [] ∷ [])) ≡ some v
unfolding data_lines data_text parse_data join_lines
parse_data_lines z v t p = rw (p.not_done, p.not_blank) p.reads

-- It parses to the value that was formatted, where its bytes are valid UTF-8.
pub parse-format_sse_data :
    (z : Codec) (v : Value) (t : Bytes)
    → IsPrinted z v t
    → z.from_utf8_lossy (format_sse_data z v) ≡ format_sse_data z v
    → parse_sse_event_json z (format_sse_data z v) ≡ some v
unfolding parse_sse_event_json
parse-format_sse_data z v t p u =
    rw (u, format-text z v t p.printed, lines_text (data_text t) (data_text-InLine t p.one_line))
      (parse_data_lines z v t p)

take-append_length : (s t : Bytes) → take (length s) (s ++ t) ≡ s
take-append_length [] t = refl
take-append_length (c ∷ s) t = ap (◌∷◌ c) (take-append_length s t)

drop-append_length : (s t : Bytes) → drop (length s) (s ++ t) ≡ t
drop-append_length [] t = refl
drop-append_length (c ∷ s) t = drop-append_length s t

take_event_found :
    (z : Codec) (n : ℕ) (b : Bytes) (f : Frame) (rest : Bytes) (v : Value)
    → 0 < n
    → take_one_sse_frame z b ≡ some (f, rest)
    → f.event ≡ some v
    → take_event z n b ≡ (rest, some v)
unfolding take_event
take_event_found z zero b f rest v h e ev = absurd (omega arith)
take_event_found z (suc n) b f rest v h e ev = rw (e, ev, take_event)

-- The frame that a formatted value is.
formatted : Codec → Value → Frame
formatted z v = record {
  event_bytes = format_sse_data z v;
  event = parse_sse_event_json z (format_sse_data z v);
  end = length (format_sse_data z v);
}

take_one-format :
    (z : Codec) (v : Value) (t rest : Bytes)
    → IsPrinted z v t
    → take_one_sse_frame z (format_sse_data z v ++ rest) ≡ some (formatted z v, rest)
unfolding formatted
take_one-format z v t rest p =
    let b = format_sse_data z v ++ rest in
    rw (take_one-frame_of z b, sse_frame_end-format z v t rest p)
      (unfold frame_of in rw (take-append_length, drop-append_length))

-- A client that takes one event from a buffer that begins with a formatted value gets the value,
-- and is left with the rest.
pub take_one_sse_event-format :
    (z : Codec) (v : Value) (t rest : Bytes)
    → IsPrinted z v t
    → z.from_utf8_lossy (format_sse_data z v) ≡ format_sse_data z v
    → take_one_sse_event z (format_sse_data z v ++ rest) ≡ (rest, some v)
unfolding take_one_sse_event formatted
take_one_sse_event-format z v t rest p u =
    let b = format_sse_data z v ++ rest in
    take_event_found z (length b) b (formatted z v) rest v
      (omega (
        arith,
        (sse_frame_end_bounds b _ (sse_frame_end-format z v t rest p)).0,
        (sse_frame_end_bounds b _ (sse_frame_end-format z v t rest p)).1,
      ))
      (take_one-format z v t rest p) (parse-format_sse_data z v t p u)
