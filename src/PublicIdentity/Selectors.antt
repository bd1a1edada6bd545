-- ===== src/PublicIdentity/Selectors.antt =====
-- What the validators of one name, and of what names tools within a value, accept.
use llm_universal_proxy.Prelude.{
  refl, ℕ, ◌+◌, String, Option, none, some, [], ◌∷◌, concat, and_then,
}
use llm_universal_proxy.Json.Value.{
  Value, null, bool, number, string, array, object, Items, nil, cons, Fields, end, entry, as_str,
}
use llm_universal_proxy.PublicIdentity.{
  validate_public_tool_name_not_reserved, non_empty_name, optional_name,
  validate_public_tool_identity_value_not_reserved,
  selector_container_key_is_visible_identity_carrier, key_verdict, key_name,
  validate_public_selector_visible_identity_at, validate_items, validate_fields,
}
use llm_universal_proxy.PublicIdentity.Names.{
  Checks, Checks-then, Checks-map_err, Checks-name, checks, Checks-if, of_option, shown,
  shown_items, shown_fields, identity_names,
}

non_empty_name-Checks : (s : String) → Checks (non_empty_name s) (s ∷ [])
unfolding non_empty_name
non_empty_name-Checks String.[] = checks refl
non_empty_name-Checks (String.◌∷◌ c s) = Checks-name (String.◌∷◌ c s)

optional_name-Checks : (o : Option String) → Checks (optional_name o) (of_option o)
unfolding optional_name
optional_name-Checks none = checks refl
optional_name-Checks (some s) = non_empty_name-Checks s

pub identity-Checks :
    (o : Option Value)
    → Checks (validate_public_tool_identity_value_not_reserved o) (identity_names o)
unfolding validate_public_tool_identity_value_not_reserved
identity-Checks o = optional_name-Checks (and_then o as_str)

key_verdict-Checks :
    (path : String) (o : Option String) (key : String)
    → Checks (key_verdict path o key) (of_option o)
unfolding key_verdict
key_verdict-Checks path none key = checks refl
key_verdict-Checks path (some name) key =
    Checks-map_err _ (validate_public_tool_name_not_reserved name) (name ∷ []) (Checks-name name)

mutual
  unfolding validate_public_selector_visible_identity_at shown

  pub selector-Checks :
      (v : Value) (path : String)
      → Checks (validate_public_selector_visible_identity_at v path) (shown v)
  selector-Checks (string s) path =
      Checks-map_err _ (non_empty_name s) (s ∷ []) (non_empty_name-Checks s)
  selector-Checks (array vs) path = items-Checks vs path 0
  selector-Checks (object o) path =
      Checks-then _ (validate_fields o path) _ (shown_fields o)
        (Checks-then (key_verdict path (key_name o "name") "name") _ _ _
          (key_verdict-Checks path (key_name o "name") "name")
          (key_verdict-Checks path (key_name o "namespace") "namespace"))
        (fields-Checks o path)
  selector-Checks (null) path = checks refl
  selector-Checks (bool _) path = checks refl
  selector-Checks (number _) path = checks refl

  items-Checks :
      (vs : Items) (path : String) (index : ℕ)
      → Checks (validate_items vs path index) (shown_items vs)
  items-Checks nil path index = checks refl
  items-Checks (cons v vs) path index =
      Checks-then _ (validate_items vs path (index + 1)) (shown v) (shown_items vs)
        (selector-Checks v _) (items-Checks vs path (index + 1))

  fields-Checks : (o : Fields) (path : String) → Checks (validate_fields o path) (shown_fields o)
  fields-Checks end path = checks refl
  fields-Checks (entry key nested o) path =
      Checks-then _ (validate_fields o path) _ (shown_fields o)
        (Checks-if (selector_container_key_is_visible_identity_carrier key) _ _
          (selector-Checks nested (concat path (concat "." key))))
        (fields-Checks o path)
