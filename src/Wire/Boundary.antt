-- ===== src/Wire/Boundary.antt =====
-- `sse_frame_end` finds the earliest blank line, and more input does not move it.
use llm_universal_proxy.Prelude.{
  ℕ, zero, suc, ◌+◌, ◌≤◌, ◌<◌, ◌≡◌, refl, subst, true, false, ◌&&◌, Option, none, some, [], ◌∷◌,
  ◌++◌, length, drop, ◌==◌, arith, Bool-cases, inl, inr, if◌then◌else◌,
}
use llm_universal_proxy.Wire.{Bytes, starts_crlf, frame_end_from, sse_frame_end}

-- The length of the blank line that these bytes begin with.
abbrev pub blank_line : Bytes → Option ℕ
blank_line (a ∷ b ∷ rest) =
    if a == b'\n' && b == b'\n'
    then some 2
    else if a == b'\r' && b == b'\n' && starts_crlf rest
    then some 4
    else none
blank_line (a ∷ []) = none
blank_line [] = none

-- No blank line begins at any of the first `n` bytes.
abbrev pub NoneBefore : ℕ → Bytes → Type 0
NoneBefore zero buffer = Unit
NoneBefore (suc n) [] = Unit
NoneBefore (suc n) (a ∷ buffer) = (blank_line (a ∷ buffer) ≡ none) × NoneBefore n buffer

-- The first blank line begins at `start`, and the frame ends with it.
pub record IsFirstEnd (buffer : Bytes) (e : ℕ) : Type 0 where
  pub start : ℕ
  pub width : ℕ
  pub blank : blank_line (drop start buffer) ≡ some width
  pub ends : e ≡ start + width
  pub first : NoneBefore start buffer

IsFirstEnd-here : (b : Bytes) (w : ℕ) → blank_line b ≡ some w → IsFirstEnd b w
IsFirstEnd-here b w h = record { start = 0; width = w; blank = h; ends = omega arith; first = tt }

IsFirstEnd-cons :
    (a : ℕ) (b : Bytes) (e : ℕ)
    → blank_line (a ∷ b) ≡ none
    → IsFirstEnd b e
    → IsFirstEnd (a ∷ b) (e + 1)
IsFirstEnd-cons a b e h f = record {
  start = suc f.start;
  width = f.width;
  blank = f.blank;
  ends = omega (arith, f.ends);
  first = (h, f.first);
}

frame_end_from-IsFirstEnd :
    (i : ℕ) (b : Bytes) (e : ℕ)
    → frame_end_from i b ≡ some e
    → (d : ℕ) × (e ≡ i + d) × IsFirstEnd b d
unfolding frame_end_from
frame_end_from-IsFirstEnd i [] e h = cc
frame_end_from-IsFirstEnd i (a ∷ []) e h = cc
frame_end_from-IsFirstEnd i (a ∷ b ∷ rest) e h = elim (Bool-cases (a == b'\n' && b == b'\n')) [
  | inl lf ↦ (2, ground arith, IsFirstEnd-here (a ∷ b ∷ rest) 2 (rw lf))
  | inr more ↦ elim (Bool-cases (a == b'\r' && b == b'\n' && starts_crlf rest)) [
    | inl crlf ↦ (4, ground arith, IsFirstEnd-here (a ∷ b ∷ rest) 4 (rw (more, crlf)))
    | inr on ↦
        let (d, e', f) = frame_end_from-IsFirstEnd (i + 1) (b ∷ rest) e (rw (more, on) at h) in
        (d + 1, omega arith, IsFirstEnd-cons a (b ∷ rest) d (rw (more, on)) f)
  ]
]

-- Where the scan finds an end, it is that of the first blank line.
pub sse_frame_end-IsFirstEnd : (b : Bytes) (e : ℕ) → sse_frame_end b ≡ some e → IsFirstEnd b e
unfolding sse_frame_end
sse_frame_end-IsFirstEnd b e h =
    let (d, same, f) = frame_end_from-IsFirstEnd 0 b e h in subst (IsFirstEnd b) (omega arith) f

frame_end_from-none :
    (i : ℕ) (b : Bytes) → frame_end_from i b ≡ none → (j : ℕ) → blank_line (drop j b) ≡ none
unfolding frame_end_from
frame_end_from-none i [] h zero = refl
frame_end_from-none i [] h (suc j) = refl
frame_end_from-none i (a ∷ []) h zero = refl
frame_end_from-none i (a ∷ []) h (suc zero) = refl
frame_end_from-none i (a ∷ []) h (suc (suc j)) = refl
frame_end_from-none i (a ∷ b ∷ rest) h zero = ground arith
frame_end_from-none i (a ∷ b ∷ rest) h (suc j) =
    frame_end_from-none (i + 1) (b ∷ rest) (ground arith) j

-- Where it finds none, there is no blank line.
pub sse_frame_end-none :
    (b : Bytes) → sse_frame_end b ≡ none → (j : ℕ) → blank_line (drop j b) ≡ none
unfolding sse_frame_end
sse_frame_end-none b = frame_end_from-none 0 b

-- A blank line lies within the buffer.
blank_line-le : (b : Bytes) (w : ℕ) → blank_line b ≡ some w → (2 ≤ w) × (w ≤ length b)
blank_line-le [] w h = cc
blank_line-le (a ∷ []) w h = cc
blank_line-le (a ∷ b ∷ []) w h = ground arith
blank_line-le (a ∷ b ∷ c ∷ []) w h = ground arith
blank_line-le (a ∷ b ∷ c ∷ d ∷ rest) w h = ground arith

length-drop_le : (j : ℕ) (b : Bytes) → 0 < length (drop j b) → j + length (drop j b) ≡ length b
length-drop_le zero b h = omega arith
length-drop_le (suc j) [] h = absurd (omega arith)
length-drop_le (suc j) (a ∷ b) h = omega (arith, length-drop_le j b h)

-- A frame has two bytes at least, and lies within the buffer.
pub sse_frame_end_bounds : (b : Bytes) (e : ℕ) → sse_frame_end b ≡ some e → (2 ≤ e) × (e ≤ length b)
sse_frame_end_bounds b e h =
    let f = sse_frame_end-IsFirstEnd b e h in
    let (two, fits) = blank_line-le (drop f.start b) f.width f.blank in
    let whole = length-drop_le f.start b (omega arith) in
    (omega (arith, f.ends), omega (arith, f.ends))

-- Whether four bytes are a blank line is known from the bytes that are there.
later_end :
    (i a b : ℕ) (rest more : Bytes) (e : ℕ)
    → (a == b'\r' && b == b'\n' && starts_crlf rest) ≡ false
    → frame_end_from i (b ∷ rest) ≡ some e
    → (a == b'\r' && b == b'\n' && starts_crlf (rest ++ more)) ≡ false
unfolding frame_end_from
later_end i a b [] more e off later = cc
later_end i a b (c ∷ []) more e off later = ground arith
later_end i a b (c ∷ d ∷ rest) more e off later = off

starts_crlf-append :
    (a b : ℕ) (rest more : Bytes)
    → (a == b'\r' && b == b'\n' && starts_crlf rest) ≡ true
    → (a == b'\r' && b == b'\n' && starts_crlf (rest ++ more)) ≡ true
starts_crlf-append a b [] more h = ground arith
starts_crlf-append a b (c ∷ []) more h = ground arith
starts_crlf-append a b (c ∷ d ∷ rest) more h = h

frame_end_from-append :
    (i : ℕ) (b more : Bytes) (e : ℕ)
    → frame_end_from i b ≡ some e
    → frame_end_from i (b ++ more) ≡ some e
unfolding frame_end_from
frame_end_from-append i [] more e h = cc
frame_end_from-append i (a ∷ []) more e h = cc
frame_end_from-append i (a ∷ b ∷ rest) more e h = elim (Bool-cases (a == b'\n' && b == b'\n')) [
  | inl lf ↦ rw lf (rw lf at h)
  | inr off ↦ elim (Bool-cases (a == b'\r' && b == b'\n' && starts_crlf rest)) [
    | inl crlf ↦ rw (off, starts_crlf-append a b rest more crlf) (rw (off, crlf) at h)
    | inr on ↦
        let later = rw (off, on) at h in
        rw (off, later_end (i + 1) a b rest more e on later)
          (frame_end_from-append (i + 1) (b ∷ rest) more e later)
  ]
]

-- A frame that is complete stays the first frame when more bytes arrive.
pub sse_frame_end-append :
    (b more : Bytes) (e : ℕ) → sse_frame_end b ≡ some e → sse_frame_end (b ++ more) ≡ some e
unfolding sse_frame_end
sse_frame_end-append b more e h = frame_end_from-append 0 b more e h
