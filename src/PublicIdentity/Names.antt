-- ===== src/PublicIdentity/Names.antt =====
-- The names that a body shows at the places where tools are named, and verdicts that accept exactly
-- where none of a list of names is reserved.
use llm_universal_proxy.Prelude.{
  ◌≡◌, refl, String, Bool, true, false, not, ◌&&◌, ◌||◌, Option, none, some, List, [], ◌∷◌, ◌++◌,
  and_then, any, if◌then◌else◌, ok, err, ◌>>◌, arith,
}
use llm_universal_proxy.Json.Value.{
  Value, null, bool, number, string, array, object, Items, nil, cons, Fields, end, entry, get,
  as_str, as_array,
}
use llm_universal_proxy.PublicIdentity.{
  Verdict, map_err, openai_responses_custom_tool_bridge_prefix_is_reserved,
  validate_public_tool_name_not_reserved, selector_container_key_is_visible_identity_carrier,
  key_name, listed, selected_tools, is_call_item,
}

abbrev pub is_accepted : Verdict → Bool
is_accepted (ok u) = true
is_accepted (err e) = false

abbrev pub is_reserved : String → Bool
is_reserved = openai_responses_custom_tool_bridge_prefix_is_reserved

-- A verdict accepts exactly if none of the names is reserved.
pub data Checks (m : Verdict) (names : List String) : Type 0 where
  checks : is_accepted m ≡ not (any is_reserved names) → Checks m names

any-append :
    (xs ys : List String) → any is_reserved (xs ++ ys) ≡ (any is_reserved xs || any is_reserved ys)
any-append [] ys = refl
any-append (x ∷ xs) ys = ground (arith, any-append xs ys)

accepted-then : (m k : Verdict) → is_accepted (m >> k) ≡ (is_accepted m && is_accepted k)
accepted-then (ok u) k = refl
accepted-then (err e) k = refl

pub Checks-then :
    (m k : Verdict) (xs ys : List String) → Checks m xs → Checks k ys → Checks (m >> k) (xs ++ ys)
Checks-then m k xs ys (checks p) (checks q) =
    checks (ground (arith, accepted-then m k, any-append xs ys, p, q))

pub Checks-map_err :
    (f : String → String) (m : Verdict) (xs : List String) → Checks m xs → Checks (map_err f m) xs
Checks-map_err f (ok u) xs (checks h) = checks h
Checks-map_err f (err e) xs (checks h) = checks h

pub Checks-name : (s : String) → Checks (validate_public_tool_name_not_reserved s) (s ∷ [])
unfolding validate_public_tool_name_not_reserved
Checks-name s = checks (ground arith)

pub Checks-if :
    (b : Bool) (m : Verdict) (xs : List String)
    → Checks m xs
    → Checks (if b then m else ok tt) (if b then xs else [])
Checks-if true m xs h = h
Checks-if false m xs h = checks refl

abbrev pub of_option : Option String → List String
of_option none = []
of_option (some s) = s ∷ []

unfoldable mutual
  unfolding selector_container_key_is_visible_identity_carrier

  -- The texts of a value, and the names of its objects, also in what names tools within it.
  pub shown : Value → List String
  shown (string s) = s ∷ []
  shown (array vs) = shown_items vs
  shown (object o) =
      of_option (key_name o "name") ++ of_option (key_name o "namespace") ++ shown_fields o
  shown (null) = []
  shown (bool _) = []
  shown (number _) = []

  pub shown_items : Items → List String
  shown_items nil = []
  shown_items (cons v vs) = shown v ++ shown_items vs

  pub shown_fields : Fields → List String
  shown_fields end = []
  shown_fields (entry key nested o) =
      let inner = shown nested in
      (if selector_container_key_is_visible_identity_carrier key then inner else [])
      ++ shown_fields o

abbrev pub identity_names : Option Value → List String
identity_names value = of_option (and_then value as_str)

abbrev pub nested_names : Option Value → List String
nested_names none = []
nested_names (some v) =
    identity_names (some v) ++ identity_names (get v "name") ++ identity_names (get v "namespace")

unfoldable pub reference_names : Value → List String
unfolding shown
reference_names v =
    shown v
    ++ identity_names (some v)
    ++ identity_names (get v "name")
    ++ identity_names (get v "namespace")
    ++ nested_names (get v "function")
    ++ nested_names (get v "custom")

unfoldable pub each_names : (Value → List String) → List Value → List String
each_names f [] = []
each_names f (v ∷ vs) = f v ++ each_names f vs

unfoldable pub choice_names : Option Value → List String
unfolding reference_names each_names
choice_names none = []
choice_names (some null) = []
choice_names (some choice) =
    reference_names choice ++ each_names reference_names (selected_tools choice)

unfoldable pub metadata_names : Value → List String
unfolding reference_names each_names choice_names
metadata_names v =
    each_names reference_names (listed (and_then (get v "tools") as_array))
    ++ choice_names (get v "tool_choice")

unfoldable pub item_names : Value → List String
item_names item =
    if is_call_item item
    then identity_names (get item "name") ++ identity_names (get item "namespace")
    else []

unfoldable pub optional_names : (Value → List String) → Option Value → List String
optional_names f none = []
optional_names f (some v) = f v

unfoldable pub request_names : Value → List String
unfolding metadata_names item_names each_names
request_names v =
    metadata_names v ++ each_names item_names (listed (and_then (get v "input") as_array))

unfoldable pub output_names : Value → List String
unfolding item_names each_names
output_names output = each_names item_names (listed (as_array output))

unfoldable pub response_names : Value → List String
unfolding metadata_names output_names optional_names
response_names v = metadata_names v ++ optional_names output_names (get v "output")
