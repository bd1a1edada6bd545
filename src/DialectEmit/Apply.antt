-- ===== src/DialectEmit/Apply.antt =====
-- `apply_dialect_reasoning_emit` as a whole: what it emits, when it warns, and what it leaves
-- alone.
use llm_universal_proxy.Prelude.{
  String, ◌≡◌, refl, Bool, true, false, Option, none, some, subst, str_eq, ltb, Bool-cases, inl,
  inr, and_then, if◌then◌else◌,
}
use llm_universal_proxy.Json.Value.{Value, object, Fields, field, get}
use llm_universal_proxy.Json.Laws.{json_laws}
use llm_universal_proxy.Formats.{
  UpstreamFormat, anthropic, open_ai_chat_completions, open_ai_responses,
}
use llm_universal_proxy.Dialect.Levels.{
  ReasoningLevel, rank, ReasoningMechanism, open_ai_effort, anthropic_effort, anthropic_thinking,
  auto_only, no_reasoning,
}
use llm_universal_proxy.Dialect.{DialectBlock}
use llm_universal_proxy.DialectEmit.{
  parse_client_reasoning_effort, entry_effort, emit_openai_effort, emit_anthropic_effort,
  emit_anthropic_thinking, drop_effort, strip_reasoning_fields, Warning, capped, ceiling_for, cap,
  cap_to_ceiling, warn_if_capped, emit_by, apply_dialect_reasoning_emit,
}
use llm_universal_proxy.DialectEmit.Body.{
  CanHold, parse-emit_chat, parse-emit_responses, parse-emit_anthropic,
}

-- The pairs of a mechanism and a format in which a client of that format reads a level, and what
-- the body must hold there.
abbrev pub CanRead : ReasoningMechanism → UpstreamFormat → Fields → Type 0
CanRead open_ai_effort open_ai_chat_completions o = Unit
CanRead open_ai_effort open_ai_responses o = CanHold (field "reasoning" o)
CanRead anthropic_effort anthropic o = CanHold (field "output_config" o)
CanRead _ _ o = ⊥

-- The lesser of two levels.
abbrev pub lesser : ReasoningLevel → ReasoningLevel → ReasoningLevel
lesser a b = if ltb (rank b) (rank a) then b else a

abbrev pub Emits :
    UpstreamFormat → ReasoningLevel → ReasoningLevel → Option (Value × Option Warning) → Type 0
Emits f effort c none = ⊥
Emits f effort c (some (body, w)) =
    (parse_client_reasoning_effort body f ≡ some (lesser effort c))
    × (w ≡ (if ltb (rank c) (rank effort) then some (capped effort c) else none))

warn_if_capped-Emits :
    (f : UpstreamFormat) (effort c : ReasoningLevel) (emit : ReasoningLevel → Value)
    → ((l : ReasoningLevel) → parse_client_reasoning_effort (emit l) f ≡ some l)
    → Emits f effort c (some (warn_if_capped effort emit (cap effort c)))
warn_if_capped-Emits f effort c emit h = elim (Bool-cases (ltb (rank c) (rank effort))) [
  | inl e ↦ rw e (h c, refl)
  | inr e ↦ rw e (h effort, refl)
]

emit_by-Emits :
    (m : ReasoningMechanism) (f : UpstreamFormat) (o : Fields) (d : DialectBlock)
    (effort c : ReasoningLevel)
    → ceiling_for d ≡ some c
    → CanRead m f o
    → Emits f effort c (emit_by m (object o) f d effort)
unfolding emit_by cap_to_ceiling
emit_by-Emits open_ai_effort open_ai_chat_completions o d effort c e h =
    rw e (warn_if_capped-Emits open_ai_chat_completions effort c _ (parse-emit_chat o))
emit_by-Emits open_ai_effort open_ai_responses o d effort c e h =
    rw e (warn_if_capped-Emits open_ai_responses effort c _ (λ l. parse-emit_responses o l h))
emit_by-Emits anthropic_effort anthropic o d effort c e h =
    rw e (warn_if_capped-Emits anthropic effort c _ (λ l. parse-emit_anthropic o l h))
emit_by-Emits _ _ o d effort c e h = absurd h

-- Where a client of the format reads the level that the mechanism writes, and the body can hold it,
-- the client finds the lesser of its level and the ceiling, and there is a warning exactly when its
-- level lay above the ceiling.
pub apply-Emits :
    (o : Fields) (f : UpstreamFormat) (d : DialectBlock) (effort c : ReasoningLevel)
    → ceiling_for d ≡ some c
    → CanRead d.reasoning f o
    → Emits f effort c (apply_dialect_reasoning_emit (object o) f d effort)
unfolding apply_dialect_reasoning_emit
apply-Emits o f d effort c e h = emit_by-Emits d.reasoning f o d effort c e h

-- A key that no dialect writes.
pub record IsOther (k : String) : Type 0 where
  pub not_effort : str_eq "reasoning_effort" k ≡ false
  pub not_reasoning : str_eq "reasoning" k ≡ false
  pub not_config : str_eq "output_config" k ≡ false
  pub not_thinking : str_eq "thinking" k ≡ false

module _ (k : String) (h : IsOther k) where
  get-entry_effort :
      (j : String) (l : ReasoningLevel) (o : Fields) (v : Option Value)
      → str_eq j k ≡ false
      → field k (entry_effort j l o v) ≡ field k o
  unfolding entry_effort
  get-entry_effort j l o none e = simp (json_laws, e)
  get-entry_effort j l o (some v) e = simp (json_laws, e)

  get-drop_effort :
      (j : String) (o : Fields) (v : Option Value)
      → str_eq j k ≡ false
      → field k (drop_effort j o v) ≡ field k o
  unfolding drop_effort
  get-drop_effort j o none e = refl
  get-drop_effort j o (some (object c)) e = simp (json_laws, e)
  get-drop_effort j o (some _) e = refl

  get-emit_openai :
      (body : Value) (f : UpstreamFormat) (l : ReasoningLevel)
      → get (emit_openai_effort body f l) k ≡ get body k
  unfolding emit_openai_effort get
  get-emit_openai (object o) open_ai_chat_completions l = simp (json_laws, h.not_effort)
  get-emit_openai (object o) open_ai_responses l =
      rw (get-entry_effort "reasoning" l _ _ h.not_reasoning) (simp (json_laws, h.not_effort))
  get-emit_openai (object o) anthropic l = simp (json_laws, h.not_effort)
  get-emit_openai _ f l = refl

  get-emit_anthropic :
      (body : Value) (l : ReasoningLevel) → get (emit_anthropic_effort body l) k ≡ get body k
  unfolding emit_anthropic_effort get
  get-emit_anthropic (object o) l = get-entry_effort "output_config" l o _ h.not_config
  get-emit_anthropic _ l = refl

  get-emit_thinking :
      (body : Value) (l : ReasoningLevel) → get (emit_anthropic_thinking body l) k ≡ get body k
  unfolding emit_anthropic_thinking get
  get-emit_thinking (object o) l = simp (json_laws, h.not_thinking)
  get-emit_thinking _ l = refl

  get-strip :
      (body : Value) (f : UpstreamFormat) → get (strip_reasoning_fields body f) k ≡ get body k
  unfolding strip_reasoning_fields get
  get-strip (object o) open_ai_chat_completions = simp (json_laws, h.not_effort)
  get-strip (object o) open_ai_responses =
      rw (get-drop_effort "reasoning" _ _ h.not_reasoning) (simp (json_laws, h.not_effort))
  get-strip (object o) anthropic =
      simp (json_laws, h.not_thinking) (get-drop_effort "output_config" o _ h.not_config)
  get-strip _ f = refl

  -- The body of a result, whatever its warning.
  abbrev Keeps : Value → Option (Value × Option Warning) → Type 0
  Keeps body none = Unit
  Keeps body (some (body', w)) = get body' k ≡ get body k

  warn_if_capped-Keeps :
      (body : Value) (effort : ReasoningLevel) (emit : ReasoningLevel → Value)
      (c : ReasoningLevel × Bool)
      → ((l : ReasoningLevel) → get (emit l) k ≡ get body k)
      → Keeps body (some (warn_if_capped effort emit c))
  warn_if_capped-Keeps body effort emit (l, true) e = e l
  warn_if_capped-Keeps body effort emit (l, false) e = e l

  capped-Keeps :
      (body : Value) (effort : ReasoningLevel) (emit : ReasoningLevel → Value)
      (c : Option (ReasoningLevel × Bool))
      → ((l : ReasoningLevel) → get (emit l) k ≡ get body k)
      → Keeps body (and_then c (λ c. some (warn_if_capped effort emit c)))
  capped-Keeps body effort emit none e = tt
  capped-Keeps body effort emit (some c) e = warn_if_capped-Keeps body effort emit c e

  emit_by-Keeps :
      (m : ReasoningMechanism) (body : Value) (f : UpstreamFormat) (d : DialectBlock)
      (effort : ReasoningLevel)
      → Keeps body (emit_by m body f d effort)
  unfolding emit_by
  emit_by-Keeps open_ai_effort body f d effort =
      capped-Keeps body effort _ (cap_to_ceiling effort d) (get-emit_openai body f)
  emit_by-Keeps anthropic_effort body f d effort =
      capped-Keeps body effort _ (cap_to_ceiling effort d) (get-emit_anthropic body)
  emit_by-Keeps anthropic_thinking body f d effort =
      capped-Keeps body effort _ (cap_to_ceiling effort d) (get-emit_thinking body)
  emit_by-Keeps auto_only body f d effort = get-strip body f
  emit_by-Keeps no_reasoning body f d effort = get-strip body f

-- Whatever the dialect, the body's other fields stay as they were.
pub apply_frame :
    (k : String) (body : Value) (f : UpstreamFormat) (d : DialectBlock) (effort : ReasoningLevel)
    (body' : Value) (w : Option Warning)
    → IsOther k
    → apply_dialect_reasoning_emit body f d effort ≡ some (body', w)
    → get body' k ≡ get body k
unfolding apply_dialect_reasoning_emit
apply_frame k body f d effort body' w h e =
    subst (Keeps k h body) e (emit_by-Keeps k h d.reasoning body f d effort)
