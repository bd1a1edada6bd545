-- ===== src/RoleRepair/Unchanged.antt =====
-- A request that is classified as needing no transformation is one that the repairs leave as it is.
use llm_universal_proxy.Prelude.{
  ◌≡◌, refl, ap, ◌∙◌, String, Bool, true, false, ◌&&◌, ◌||◌, Option, none, some, List, [], ◌∷◌, map,
  any, and_then, arith, str_eq, eq_iff, if◌then◌else◌,
}
use llm_universal_proxy.Json.Value.{
  Value, null, bool, number, string, array, object, Items, nil, cons, Fields, end, entry, field,
  get, items, as_str, as_array,
}
use llm_universal_proxy.Formats.{
  UpstreamFormat, anthropic, open_ai_chat_completions, open_ai_responses,
}
use llm_universal_proxy.RequestProcessing.{
  RequestProcessingInput, transformation_not_required, openai_string_message_role_if_coalescible,
  openai_chat_has_instruction_roles, openai_chat_has_adjacent_coalescible_string_messages,
  responses_input_has_developer_role, classify_request_processing, by_protocol, adjacent_same,
  same_role, text_is, role_of, some_item, in_messages,
}
use llm_universal_proxy.RequestProcessing.Forwarding.{untransformed, same_protocol}
use llm_universal_proxy.RoleRepair.{
  of_list, on_array, in_field, with_array, text_at, joined, after_joined, coalesce_after, coalesce,
  coalesce_openai_string_messages, normalize_openai_responses_role,
  normalize_openai_responses_roles, normalize_openai_roles_for_compatibility, downgraded,
}
use llm_universal_proxy.RoleRepair.SameFormat.{
  downgrade, downgrade_openai_instruction_messages_to_user_for_maximum_safe_compatibility,
  is_minimax_model, apply_openai_completion_compat_overrides, same_format_repairs,
}

-- What the array under a key, if there is one, is left as.
abbrev Fixes : (List Value → List Value) → Option (List Value) → Type 0
Fixes f none = Unit
Fixes f (some vs) = f vs ≡ vs

of_list-items : (vs : Items) → of_list (items vs) ≡ vs
of_list-items nil = refl
of_list-items (cons v vs) = ap (cons v) (of_list-items vs)

on_array-fixed : (f : List Value → List Value) (v : Value) → Fixes f (as_array v) → on_array f v ≡ v
on_array-fixed f (array vs) h = ap array (ap of_list h ∙ of_list-items vs)
on_array-fixed f (null) h = refl
on_array-fixed f (bool _) h = refl
on_array-fixed f (number _) h = refl
on_array-fixed f (string _) h = refl
on_array-fixed f (object _) h = refl

at_entry :
    (key : String) (f : List Value → List Value) (j : String) (v : Value) (o : Fields) (b : Bool)
    → (Fixes f (and_then (field key o) as_array) → in_field key f o ≡ o)
    → Fixes f (and_then (if b then some v else field key o) as_array)
    → (if b then entry j (on_array f v) o else entry j v (in_field key f o)) ≡ entry j v o
at_entry key f j v o true rest e = ap (λ w. entry j w o) (on_array-fixed f v e)
at_entry key f j v o false rest e = ap (entry j v) (rest e)

in_field-fixed :
    (key : String) (f : List Value → List Value) (o : Fields)
    → Fixes f (and_then (field key o) as_array)
    → in_field key f o ≡ o
unfolding field
in_field-fixed key f end h = refl
in_field-fixed key f (entry j v o) h =
    at_entry key f j v o (str_eq j key) (in_field-fixed key f o) h

with_array-fixed :
    (key : String) (f : List Value → List Value) (v : Value)
    → Fixes f (and_then (get v key) as_array)
    → with_array key f v ≡ v
unfolding get
with_array-fixed key f (object o) h = ap object (in_field-fixed key f o h)
with_array-fixed key f (null) h = refl
with_array-fixed key f (bool _) h = refl
with_array-fixed key f (number _) h = refl
with_array-fixed key f (string _) h = refl
with_array-fixed key f (array _) h = refl

different :
    (role_a role_b text_a text_b : Option String) (both : String → String → Value)
    → same_role role_a role_b ≡ false
    → and_then role_b (λ role.
      and_then text_b
        (λ t. and_then text_a (λ s. if text_is role_a role then some (both s t) else none)))
      ≡ none
different role_a none text_a text_b both h = refl
different role_a (some r) text_a none both h = refl
different role_a (some r) none (some t) both h = refl
different none (some r) (some s) (some t) both h = refl
different (some l) (some r) (some s) (some t) both h =
    let apart : str_eq l r ≡ false = ground (arith, eq_iff l r, eq_iff r l) in rw apart refl

joined-none :
    (a b : Value)
    → same_role
        (openai_string_message_role_if_coalescible a)
        (openai_string_message_role_if_coalescible b)
      ≡ false
    → joined a b ≡ none
unfolding joined
joined-none a b h =
    different (openai_string_message_role_if_coalescible a)
      (openai_string_message_role_if_coalescible b) (text_at "content" a) (text_at "content" b) _ h

first-false : (a b : Bool) → (a || b) ≡ false → a ≡ false
first-false a b h = ground arith

rest-false : (a b : Bool) → (a || b) ≡ false → b ≡ false
rest-false a b h = ground arith

coalesce_after-fixed :
    (previous : Value) (ms : List Value)
    → adjacent_same (previous ∷ ms) ≡ false
    → coalesce_after previous ms ≡ previous ∷ ms
unfolding coalesce_after adjacent_same
coalesce_after-fixed previous [] h = refl
coalesce_after-fixed previous (m ∷ ms) h =
    ap
      (λ (o : Option Value).
        after_joined previous o (λ both. coalesce_after both ms) (coalesce_after m ms))
      (joined-none previous m (first-false _ (adjacent_same (m ∷ ms)) h))
    ∙ ap (◌∷◌ previous) (
        coalesce_after-fixed m ms (
          rest-false
            (same_role (openai_string_message_role_if_coalescible previous)
              (openai_string_message_role_if_coalescible m))
            _ h))

coalesce-fixed : (ms : List Value) → adjacent_same ms ≡ false → coalesce ms ≡ ms
unfolding coalesce adjacent_same
coalesce-fixed [] h = refl
coalesce-fixed (m ∷ ms) h = coalesce_after-fixed m ms h

-- A rewriting of each item that leaves the items that do not pass a test leaves an array with none.
map-fixed :
    (f : Value → Value) (p : Value → Bool)
    → ((v : Value) → p v ≡ false → f v ≡ v)
    → (vs : List Value) → any p vs ≡ false
    → map f vs ≡ vs
map-fixed f p keep [] h = refl
map-fixed f p keep (v ∷ vs) h =
    ap (λ w. w ∷ map f vs) (keep v (first-false _ (any p vs) h))
    ∙ ap (◌∷◌ v) (map-fixed f p keep vs (rest-false (p v) _ h))

Fixes-map :
    (f : Value → Value) (p : Value → Bool) (o : Option (List Value))
    → ((v : Value) → p v ≡ false → f v ≡ v)
    → some_item p o ≡ false
    → Fixes (map f) o
Fixes-map f p none keep h = tt
Fixes-map f p (some vs) keep h = map-fixed f p keep vs h

Fixes-coalesce : (o : Option (List Value)) → in_messages adjacent_same o ≡ false → Fixes coalesce o
Fixes-coalesce none h = tt
Fixes-coalesce (some vs) h = coalesce-fixed vs h

downgraded-fixed :
    (m : Value) (o : Option String)
    → (text_is o "system" || text_is o "developer") ≡ false
    → downgraded m o ≡ m
unfolding downgraded
downgraded-fixed m none h = refl
downgraded-fixed m (some role) h = rw h refl

responses_role-fixed :
    (v : Value)
    → (text_is (and_then (get v "type") as_str) "message" && text_is (role_of v) "developer")
      ≡ false
    → normalize_openai_responses_role v ≡ v
unfolding normalize_openai_responses_role
responses_role-fixed v h = rw h refl

never : {A : Type 0} (b : Bool) (x y : A) → (if b && false then x else y) ≡ y
never true x y = refl
never false x y = refl

either : {A : Type 0} (b : Bool) (x : A) → (if b then x else x) ≡ x
either true x = refl
either false x = refl

downgrade_all-fixed :
    (body : Value)
    → openai_chat_has_instruction_roles body ≡ false
    → openai_chat_has_adjacent_coalescible_string_messages body ≡ false
    → downgrade_openai_instruction_messages_to_user_for_maximum_safe_compatibility body ≡ body
unfolding downgrade_openai_instruction_messages_to_user_for_maximum_safe_compatibility
    coalesce_openai_string_messages openai_chat_has_instruction_roles
    openai_chat_has_adjacent_coalescible_string_messages
downgrade_all-fixed body plain apart =
    let messages = and_then (get body "messages") as_array in
    ap (with_array "messages" coalesce) (
      with_array-fixed "messages" (map downgrade) body
        (Fixes-map downgrade _ messages (λ m. downgraded-fixed m (text_at "role" m)) plain))
    ∙ with_array-fixed "messages" coalesce body (Fixes-coalesce messages apart)

responses-fixed :
    (stream : Bool) (body : Value)
    → (stream && responses_input_has_developer_role body) ≡ false
    → (if stream && true then normalize_openai_responses_roles body else body) ≡ body
unfolding normalize_openai_responses_roles responses_input_has_developer_role
responses-fixed false body h = refl
responses-fixed true body h = with_array-fixed "input" (map normalize_openai_responses_role) body (
    Fixes-map normalize_openai_responses_role _ (and_then (get body "input") as_array)
      responses_role-fixed h)

overrides-fixed :
    (model : String) (body : Value)
    → is_minimax_model model ≡ false
    → apply_openai_completion_compat_overrides model body ≡ body
unfolding apply_openai_completion_compat_overrides
overrides-fixed model body h = rw h refl

repairs-fixed :
    (f : UpstreamFormat) (i : RequestProcessingInput)
    → by_protocol f i ≡ false
    → same_format_repairs f i.stream i.upstream_model i.body ≡ i.body
unfolding same_format_repairs by_protocol normalize_openai_roles_for_compatibility
repairs-fixed open_ai_chat_completions i h =
    let roles = openai_chat_has_instruction_roles i.body in
    let adjacent = openai_chat_has_adjacent_coalescible_string_messages i.body in
    ap
      (λ (b : Value).
        apply_openai_completion_compat_overrides i.upstream_model
          (downgrade_openai_instruction_messages_to_user_for_maximum_safe_compatibility b))
      (never i.stream _ i.body)
    ∙ ap (apply_openai_completion_compat_overrides i.upstream_model)
        (downgrade_all-fixed i.body (ground arith) (ground arith))
    ∙ overrides-fixed i.upstream_model i.body (ground arith)
repairs-fixed open_ai_responses i h = responses-fixed i.stream i.body h
repairs-fixed anthropic i h = either (i.stream && true) i.body

-- A request that is classified as needing no transformation, and so is sent as it came, is one that
-- the translation would not have repaired either: its format is the upstream's, and the repairs of
-- roles, of adjacent messages and of the fields that some models want leave its body as it is.
pub classify-IsUnchanged :
    (i : RequestProcessingInput)
    → (classify_request_processing i).request_processing ≡ transformation_not_required
    → (i.client_format ≡ i.upstream_format)
      × (same_format_repairs i.client_format i.stream i.upstream_model i.body ≡ i.body)
classify-IsUnchanged i h =
    let (format, protocol) = same_protocol i (untransformed i h) in
    (format, repairs-fixed i.client_format i protocol)
