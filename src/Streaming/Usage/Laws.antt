-- ===== src/Streaming/Usage/Laws.antt =====
-- What a reader finds in a usage that was mapped: its counts, and every field the map does not know.
use llm_universal_proxy.Prelude.{
  ◌≡◌, refl, sym, subst, ◌∙◌, ap, ℕ, String, true, false, Option, none, some, List, arith, one_of,
  str_eq, or_option, eq_iff, is_some, if◌then◌else◌,
}
use llm_universal_proxy.Json.Value.{
  Value, number, pos_int, object, Fields, end, entry, field, insert, get,
}
use llm_universal_proxy.Json.Laws.{field-insert}
use llm_universal_proxy.Streaming.Usage.{
  copy_unknown_usage_fields, count_or, either_key, openai_counts, responses_counts, with_details,
  copy_rest, mapped_usage, responses_reserved, openai_reserved,
  responses_usage_to_openai_usage_stream, openai_usage_to_responses_usage_stream,
}

field-copy :
    (k : String) (source : Fields) (reserved : List String) (target : Fields)
    → field k (copy_unknown_usage_fields source reserved target) ≡ (
        if is_some (field k target)
        then field k target
        else if one_of k reserved
        then none
        else field k source)
unfolding copy_unknown_usage_fields field
field-copy k end reserved target = ground arith
field-copy k (entry key value rest) reserved target = ground (
  arith,
  eq_iff key k,
  field-insert key k value target,
  field-copy k rest reserved target,
  field-copy k rest reserved (insert key value target),
)

-- A field that the target has stays, and one that is neither there nor reserved is the source's.
field-kept :
    (k : String) (source : Fields) (reserved : List String) (target : Fields) (v : Value)
    → field k target ≡ some v
    → field k (copy_rest (object source) reserved target) ≡ some v
unfolding copy_rest
field-kept k source reserved target v h = ground (arith, field-copy k source reserved target)

field-unknown :
    (k : String) (source : Fields) (reserved : List String) (target : Fields)
    → field k target ≡ none
    → one_of k reserved ≡ false
    → field k (copy_rest (object source) reserved target) ≡ field k source
unfolding copy_rest
field-unknown k source reserved target h r = ground (arith, field-copy k source reserved target)

field-with_details :
    (k key : String) (d : Option Fields) (o : Fields)
    → str_eq key k ≡ false
    → field k (with_details key d o) ≡ field k o
unfolding with_details
field-with_details k key none o h = refl
field-with_details k key (some d) o h = ground (arith, field-insert key k (object d) o)

field-detailed :
    (k key key' : String) (d d' : Option Fields) (o : Fields) (v : Option Value)
    → str_eq key k ≡ false
    → str_eq key' k ≡ false
    → field k o ≡ v
    → field k (with_details key' d' (with_details key d o)) ≡ v
field-detailed k key key' d d' o v h h' e =
    field-with_details k key' d' (with_details key d o) h' ∙ (field-with_details k key d o h ∙ e)

get-mapped :
    (k : String) (source : Fields) (reserved : List String) (key : String) (d : Option Value)
    (key' : String) (d' : Option Value) (counts : Fields) (v : Value)
    → str_eq key k ≡ false
    → str_eq key' k ≡ false
    → field k counts ≡ some v
    → get (mapped_usage (object source) reserved key d key' d' counts) k ≡ some v
unfolding mapped_usage get
get-mapped k source reserved key d key' d' counts v h h' e =
    field-kept k source reserved _ v (field-detailed k key key' _ _ counts (some v) h h' e)

get-unmapped :
    (k : String) (source : Fields) (reserved : List String) (key : String) (d : Option Value)
    (key' : String) (d' : Option Value) (counts : Fields)
    → str_eq key k ≡ false
    → str_eq key' k ≡ false
    → field k counts ≡ none
    → one_of k reserved ≡ false
    → get (mapped_usage (object source) reserved key d key' d' counts) k ≡ field k source
unfolding mapped_usage get
get-unmapped k source reserved key d key' d' counts h h' e r =
    field-unknown k source reserved _ (field-detailed k key key' _ _ counts none h h' e) r

abbrev NumberAt : String → ℕ → Value → Type 0
NumberAt k n usage = get usage k ≡ some (number (pos_int n))

-- The three counts of a usage, under the names of a format.
abbrev pub Counts : String → String → ℕ → ℕ → ℕ → Value → Type 0
Counts input_key output_key input output total usage =
    NumberAt input_key input usage
    × NumberAt output_key output usage
    × NumberAt "total_tokens" total usage

-- A count that is there is read, whatever stands in its place where it is not.
read :
    (d n : ℕ) {v : Option Value}
    → v ≡ some (number (pos_int n))
    → some (number (pos_int (count_or v d))) ≡ some (number (pos_int n))
read d n h = ap (λ w. some (number (pos_int (count_or w d)))) h

either :
    (n : ℕ) (w : Option Value) {v : Option Value}
    → v ≡ some (number (pos_int n))
    → or_option v w ≡ some (number (pos_int n))
either n w h = ap (λ u. or_option u w) h

to_openai-Counts :
    (source : Fields) (input output total : ℕ)
    → Counts "input_tokens" "output_tokens" input output total (object source)
    → Counts "prompt_tokens" "completion_tokens" input output total
        (responses_usage_to_openai_usage_stream (object source))
unfolding responses_usage_to_openai_usage_stream get field
to_openai-Counts source input output total (a, b, c) =
    let u = object source in
    let read_at = λ (k : String).
      get-mapped k source responses_reserved "prompt_tokens_details"
        (either_key u "input_tokens_details" "prompt_tokens_details") "completion_tokens_details"
        (either_key u "output_tokens_details" "completion_tokens_details") (openai_counts u) in
    (
      read_at "prompt_tokens" (number (pos_int input)) refl refl
          (read 0 input (either input (get u "prompt_tokens") a)),
      read_at "completion_tokens" (number (pos_int output)) refl refl
          (read 0 output (either output (get u "completion_tokens") b)),
      read_at "total_tokens" (number (pos_int total)) refl refl (read _ total c),
    )

to_responses-Counts :
    (source : Fields) (input output total : ℕ)
    → Counts "prompt_tokens" "completion_tokens" input output total (object source)
    → Counts "input_tokens" "output_tokens" input output total
        (openai_usage_to_responses_usage_stream (object source))
unfolding openai_usage_to_responses_usage_stream get field
to_responses-Counts source input output total (a, b, c) =
    let u = object source in
    let read_at = λ (k : String).
      get-mapped k source openai_reserved "input_tokens_details" (get u "prompt_tokens_details")
        "output_tokens_details" (get u "completion_tokens_details") (responses_counts u) in
    (
      read_at "input_tokens" (number (pos_int input)) refl refl (read 0 input a),
      read_at "output_tokens" (number (pos_int output)) refl refl (read 0 output b),
      read_at "total_tokens" (number (pos_int total)) refl refl (read _ total c),
    )

-- The names that a usage has in either of the two formats.
abbrev pub Unknown : String → Type 0
Unknown k = one_of k responses_reserved ≡ false

named :
    (k j : String) (names : List String)
    → one_of k names ≡ false
    → one_of j names ≡ true
    → str_eq j k ≡ false
named k j names h m = ground (arith, eq_iff j k)

uncounted :
    (k a b c : String) (u v w : Value)
    → str_eq a k ≡ false
    → str_eq b k ≡ false
    → str_eq c k ≡ false
    → field k (entry a u (entry b v (entry c w end))) ≡ none
unfolding field
uncounted k a b c u v w e f g = ground arith

to_openai-Unknown :
    (source : Fields) (k : String)
    → Unknown k
    → get (responses_usage_to_openai_usage_stream (object source)) k ≡ field k source
unfolding responses_usage_to_openai_usage_stream one_of
to_openai-Unknown source k h =
    let u = object source in
    let other = λ (j : String). named k j responses_reserved h in
    get-unmapped k source responses_reserved "prompt_tokens_details"
      (either_key u "input_tokens_details" "prompt_tokens_details") "completion_tokens_details"
      (either_key u "output_tokens_details" "completion_tokens_details") (openai_counts u)
      (other "prompt_tokens_details" refl) (other "completion_tokens_details" refl)
      (uncounted k "prompt_tokens" "completion_tokens" "total_tokens" _ _ _
        (other "prompt_tokens" refl) (other "completion_tokens" refl) (other "total_tokens" refl))
      h

to_responses-Unknown :
    (source : Fields) (k : String)
    → Unknown k
    → get (openai_usage_to_responses_usage_stream (object source)) k ≡ field k source
unfolding openai_usage_to_responses_usage_stream one_of
to_responses-Unknown source k h =
    let u = object source in
    let other = λ (j : String). named k j responses_reserved h in
    get-unmapped k source openai_reserved "input_tokens_details" (get u "prompt_tokens_details")
      "output_tokens_details" (get u "completion_tokens_details") (responses_counts u)
      (other "input_tokens_details" refl) (other "output_tokens_details" refl)
      (uncounted k "input_tokens" "output_tokens" "total_tokens" _ _ _ (other "input_tokens" refl)
        (other "output_tokens" refl) (other "total_tokens" refl))
      (openai_unreserved k h)
  where
    openai_unreserved : (j : String) → Unknown j → one_of j openai_reserved ≡ false
    openai_unreserved j n = ground arith

-- A usage of the Responses format that goes to Chat Completions and back.
abbrev pub there_and_back : Fields → Value
there_and_back source =
    openai_usage_to_responses_usage_stream (responses_usage_to_openai_usage_stream (object source))

openai_object :
    (o : Fields) → (mid : Fields) × (responses_usage_to_openai_usage_stream (object o) ≡ object mid)
unfolding responses_usage_to_openai_usage_stream mapped_usage
openai_object o = (_, refl)

as_get : (o : Fields) (j : String) → field j o ≡ get (object o) j
unfolding get
as_get o j = refl

-- A usage with its three counts comes back from Chat Completions with the same counts, and with the
-- same value, or none, under a name that neither format reserves.
pub there_and_back-Counts :
    (source : Fields) (input output total : ℕ) (k : String)
    → Counts "input_tokens" "output_tokens" input output total (object source)
    → Unknown k
    → Counts "input_tokens" "output_tokens" input output total (there_and_back source)
      × (get (there_and_back source) k ≡ field k source)
there_and_back-Counts source input output total k h unknown =
    let (mid, e) = openai_object source in
    let counts =
      subst (Counts "prompt_tokens" "completion_tokens" input output total) e
        (to_openai-Counts source input output total h) in
    let kept = ap (λ u. get u k) (sym e) ∙ to_openai-Unknown source k unknown in
    subst
      (λ u.
        Counts "input_tokens" "output_tokens" input output total
          (openai_usage_to_responses_usage_stream u)
        × (get (openai_usage_to_responses_usage_stream u) k ≡ field k source))
      (sym e)
      (
        to_responses-Counts mid input output total counts,
        to_responses-Unknown mid k unknown ∙ as_get mid k ∙ kept,
      )
