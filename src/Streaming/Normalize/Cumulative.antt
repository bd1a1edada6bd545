-- ===== src/Streaming/Normalize/Cumulative.antt =====
-- A sender whose pieces repeat all that came before: each new part is emitted once.
use llm_universal_proxy.Prelude.{
  ◌≡◌, refl, sym, ap, ◌∙◌, ◌+◌, ℕ, min, suc, zero, ◌≤◌, ◌<◌, String, true, false, Option, List, [],
  ◌∷◌, ◌++◌, take, length, length-append, concat, str_eq, str_ne, eq_refl, len, is_empty, ltb,
  arith, branches, unwrap_or,
}
use Prim.Native.Char.{Char, len_utf8, len_utf8_def}
use Prim.Native.String.{slice}
use Prim.Native.String.len
use package.text.Mathlib.TextLemmas.{nil-append, append-nil, cons-append}
use package.text.Mathlib.TextPositions.{slice-append_right, len-append, boundary-append}
use llm_universal_proxy.Streaming.Normalize.{
  utf8, as_bytes, same_bytes, is_cumulative, non_empty, normalize_openai_stream_text,
  openai_stream_cumulative_probe,
}

-- What is emitted for a piece, as text.
abbrev pub emitted : Option String × String → String
emitted r = unwrap_or r.0 ""

non_empty_text : (s : String) → unwrap_or (non_empty s) "" ≡ s
non_empty_text String.[] = refl
non_empty_text (String.◌∷◌ c s) = refl

-- What was seen grows by what is emitted, whatever the sender does.
pub seen-emitted :
    (incoming seen : String)
    → (normalize_openai_stream_text incoming seen).1
      ≡ concat seen (emitted (normalize_openai_stream_text incoming seen))
unfolding normalize_openai_stream_text
seen-emitted incoming seen =
    let P = λ (r : Option String × String). r.1 ≡ concat seen (emitted r) in
    branches P (is_empty incoming) (λ _. sym (append-nil seen))
      λ _.
        branches P (str_eq incoming seen) (λ _. sym (append-nil seen))
          λ _.
            branches P (is_cumulative incoming seen)
              (λ _. ap (concat seen) (sym (non_empty_text _)))
              λ _. ap (concat seen) (sym (non_empty_text _))

as_bytes-append : (s t : String) → as_bytes (concat s t) ≡ as_bytes s ++ as_bytes t
unfolding as_bytes
as_bytes-append String.[] t = ap as_bytes (nil-append t)
as_bytes-append (String.◌∷◌ c s) t =
    ap as_bytes (cons-append c s t)
    ∙ (ap (λ b. utf8 c ++ b) (as_bytes-append s t)
        ∙ sym (append_assoc_list (utf8 c) (as_bytes s) (as_bytes t)))
  where
    append_assoc_list : (xs ys zs : List ℕ) → (xs ++ ys) ++ zs ≡ xs ++ (ys ++ zs)
    append_assoc_list [] ys zs = refl
    append_assoc_list (x ∷ xs) ys zs = ap (◌∷◌ x) (append_assoc_list xs ys zs)

same_bytes_refl : (xs : List ℕ) → same_bytes xs xs ≡ true
same_bytes_refl [] = refl
same_bytes_refl (x ∷ xs) = ground (arith, same_bytes_refl xs)

-- A text has as many bytes as its length says.
length-utf8 : (c : Char) → length (utf8 c) ≡ len_utf8 c
length-utf8 c = ground (arith, len_utf8_def c)

length-as_bytes : (s : String) → length (as_bytes s) ≡ len s
unfolding as_bytes
length-as_bytes String.[] = refl
length-as_bytes (String.◌∷◌ c s) =
    length-append (utf8 c) (as_bytes s)
    ∙ (ap (λ n. n + length (as_bytes s)) (length-utf8 c)
        ∙ (ap (λ n. len_utf8 c + n) (length-as_bytes s) ∙ sym (len.cons c s)))

take-append : (n : ℕ) (xs ys : List ℕ) → n ≤ length xs → take n (xs ++ ys) ≡ take n xs
take-append zero xs ys h = refl
take-append (suc n) [] ys h = absurd (omega (arith, h))
take-append (suc n) (x ∷ xs) ys h = ap (◌∷◌ x) (take-append n xs ys (omega (arith, h)))

same_probe :
    (seen more : String)
    → let probe = min (len seen) openai_stream_cumulative_probe in
      same_bytes (take probe (as_bytes (concat seen more))) (take probe (as_bytes seen)) ≡ true
same_probe seen more =
    let probe = min (len seen) openai_stream_cumulative_probe in
    let size = length-as_bytes seen in
    let fits : probe ≤ length (as_bytes seen) = ground (arith, size) in
    rw (as_bytes-append seen more) (
      rw (take-append probe (as_bytes seen) (as_bytes more) fits)
        (same_bytes_refl (take probe (as_bytes seen))))

len_positive : (c : Char) (s : String) → 0 < len (String.◌∷◌ c s)
len_positive c s = ground (arith, len.cons c s, len_utf8_def c)

-- A piece that repeats what was seen, with more behind it, is taken for what it is.
extension-is_cumulative :
    (seen : String) (c : Char) (s : String)
    → is_cumulative (concat seen (String.◌∷◌ c s)) seen ≡ true
unfolding is_cumulative
extension-is_cumulative seen c s =
    let more = String.◌∷◌ c s in
    let longer : ltb (len seen) (len (concat seen more)) ≡ true =
      ground (arith, len-append seen more, len_positive c s) in
    rw longer (rw (boundary-append seen more) (rw (same_probe seen more) refl))

-- A piece with something behind what was seen is no empty text, and another text.
extension-not_empty :
    (seen : String) (c : Char) (s : String) → is_empty (concat seen (String.◌∷◌ c s)) ≡ false
extension-not_empty String.[] c s = rw (nil-append (String.◌∷◌ c s)) refl
extension-not_empty (String.◌∷◌ d seen) c s = rw (cons-append d seen (String.◌∷◌ c s)) refl

extension-differs :
    (seen : String) (c : Char) (s : String) → str_eq (concat seen (String.◌∷◌ c s)) seen ≡ false
extension-differs seen c s = str_ne (concat seen (String.◌∷◌ c s)) seen λ e.
    let size = ap len e in omega (arith, size, len-append seen (String.◌∷◌ c s), len_positive c s)

-- What a piece that repeats what came before leads to: what is new is emitted, and all was seen.
abbrev pub Extends : String → String → Option String × String → Type 0
Extends seen more r = (emitted r ≡ more) × (r.1 ≡ concat seen more)

repeated :
    (seen : String)
    → (emitted (normalize_openai_stream_text seen seen) ≡ "")
      × ((normalize_openai_stream_text seen seen).1 ≡ seen)
unfolding normalize_openai_stream_text
repeated seen =
    branches (λ (r : Option String × String). (emitted r ≡ "") × (r.1 ≡ seen)) (is_empty seen)
      (λ _. (refl, refl)) λ _. rw (eq_refl seen) (refl, refl)

extended :
    (seen : String) (c : Char) (s : String)
    → Extends seen
        (String.◌∷◌ c s)
        (normalize_openai_stream_text (concat seen (String.◌∷◌ c s)) seen)
unfolding normalize_openai_stream_text
extended seen c s =
    let more = String.◌∷◌ c s in
    let rest : slice (concat seen more) (len seen) (len (concat seen more)) ≡ more =
      rw (len-append seen more) (slice-append_right seen more) in
    rw (extension-not_empty seen c s) (
      rw (extension-differs seen c s)
        (rw (extension-is_cumulative seen c s) (rw rest (refl, refl))))

pub normalize-Extends :
    (seen more : String) → Extends seen more (normalize_openai_stream_text (concat seen more) seen)
normalize-Extends seen String.[] = rw (append-nil seen) (repeated seen)
normalize-Extends seen (String.◌∷◌ c s) = extended seen c s

-- The pieces of a cumulative sender, each the text so far with more behind it, one after the other:
-- what is emitted for each, put together.
unfoldable pub emitted_all : List String → String → String
unfolding normalize_openai_stream_text
emitted_all [] seen = ""
emitted_all (incoming ∷ rest) seen =
    let r = normalize_openai_stream_text incoming seen in concat (emitted r) (emitted_all rest r.1)

-- The texts so far of a sender, from the parts that it adds.
abbrev pub so_far : String → List String → List String
so_far seen [] = []
so_far seen (more ∷ rest) = concat seen more ∷ so_far (concat seen more) rest

abbrev pub joined : List String → String
joined [] = ""
joined (more ∷ rest) = concat more (joined rest)

-- From a sender whose pieces repeat all that came before, exactly what is new in each is emitted.
pub emitted_all-cumulative :
    (seen : String) (parts : List String) → emitted_all (so_far seen parts) seen ≡ joined parts
unfolding emitted_all
emitted_all-cumulative seen [] = refl
emitted_all-cumulative seen (more ∷ rest) =
    let (new, all) = normalize-Extends seen more in
    rw new (rw all (rw (emitted_all-cumulative (concat seen more) rest) refl))
