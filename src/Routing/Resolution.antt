-- ===== src/Routing/Resolution.antt =====
-- Which upstream a model is resolved to.
use text.Mathlib.TextLemmas.{nil-append, cons-append}
use llm_universal_proxy.Prelude.{
  ◌≡◌, ◌≢◌, refl, String, true, false, Option, none, some, List, [], ◌∷◌, Result, ok, err, arith,
  trim, eq_refl, str_ne, concat, is_some, is_none, ◌>>◌,
}
use llm_universal_proxy.Prelude.Map
use llm_universal_proxy.Prelude.Map.{Map}
use llm_universal_proxy.Routing.{
  UpstreamConfig, ModelAlias, ResolvedModel, Config, ConfigError, find_upstream, upstream,
  split_once, from_alias, without_prefix, with_prefix, by_prefix, resolve_model, validate_alias,
  validate_each, validate_aliases, is_colon,
}

abbrev pub HasNoColon : String → Type 0
HasNoColon String.[] = Unit
HasNoColon (String.◌∷◌ c s) = (is_colon c ≡ false) × HasNoColon s

split_once-join :
    (name model : String)
    → HasNoColon name
    → split_once (concat name (concat ":" model)) ≡ some (name, model)
unfolding split_once
split_once-join String.[] model plain =
    rw (nil-append (concat ":" model), cons-append ":" "" model, nil-append model) refl
split_once-join (String.◌∷◌ c s) model (first, plain) =
    rw (cons-append c s (concat ":" model), first, split_once-join s model plain) refl

-- `name:model` goes to the upstream that is called `name`, whatever aliases there are, where that
-- upstream is configured and the model is not blank.
pub resolve_model-explicit :
    (config : Config) (name model : String) (u : UpstreamConfig)
    → HasNoColon name
    → upstream config name ≡ some u
    → trim model ≢ ""
    → resolve_model config (concat name (concat ":" model))
      ≡ ok (record { upstream_name = name; upstream_model = model })
unfolding resolve_model by_prefix with_prefix
resolve_model-explicit config name model u plain known filled =
    rw (split_once-join name model plain, known, str_ne (trim model) "" filled) refl

some-is_some : (o : Option UpstreamConfig) → is_none o ≡ false → is_some o ≡ true
some-is_some none h = cc
some-is_some (some _) h = refl

first_ok : (a b : Result ConfigError (Unit {0})) → (do a; b) ≡ ok tt → (a ≡ ok tt) × (b ≡ ok tt)
first_ok (ok _) b h = (refl, h)
first_ok (err e) b h = cc

validate_alias-known :
    (config : Config) (name : String) (alias : ModelAlias)
    → validate_alias config name alias ≡ ok tt
    → is_some (upstream config alias.upstream_name) ≡ true
unfolding validate_alias
validate_alias-known config name alias h =
    some-is_some (upstream config alias.upstream_name) (ground arith)

alias_known :
    (config : Config) (m : Map ModelAlias) (requested : String) (alias : ModelAlias)
    → validate_each config m ≡ ok tt
    → Map.get requested m ≡ some alias
    → is_some (upstream config alias.upstream_name) ≡ true
unfolding validate_each Map.get
alias_known config [] requested alias valid found = cc
alias_known config ((k, v) ∷ m) requested alias valid found =
    let (own, later) = first_ok (validate_alias config k v) (validate_each config m) valid in
    let rest = alias_known config m requested alias later in
    let known = validate_alias-known config k v own in ground arith

find_upstream-own :
    (u : UpstreamConfig) (us : List UpstreamConfig) → find_upstream u.name (u ∷ us) ≡ some u
unfolding find_upstream
find_upstream-own u us = rw (eq_refl u.name) refl

abbrev fine : ResolvedModel → Result ConfigError ResolvedModel
fine = ok

named :
    (name model : String) (r : ResolvedModel)
    → fine (record { upstream_name = name; upstream_model = model }) ≡ ok r
    → name ≡ r.upstream_name
named name model r h = cc

module _ (config : Config) (valid : validate_aliases config ≡ ok tt) where
  from_alias-known :
      (requested : String) (us : List UpstreamConfig) (o : Option ModelAlias) (r : ResolvedModel)
      → config.upstreams ≡ us
      → Map.get requested config.model_aliases ≡ o
      → from_alias requested us o ≡ ok r
      → is_some (upstream config r.upstream_name) ≡ true
  unfolding from_alias upstream validate_aliases
  from_alias-known requested us (some alias) r same found h =
      rw⁻¹ (named alias.upstream_name alias.upstream_model r h)
        (alias_known config config.model_aliases requested alias valid found)
  from_alias-known requested (u ∷ []) none r same found h =
      rw⁻¹ (named u.name requested r h) (rw (same, find_upstream-own u []) refl)
  from_alias-known requested [] none r same found h = cc
  from_alias-known requested (_ ∷ _ ∷ _) none r same found h = cc

  without_prefix-known :
      (requested : String) (r : ResolvedModel)
      → without_prefix config requested ≡ ok r
      → is_some (upstream config r.upstream_name) ≡ true
  unfolding without_prefix
  without_prefix-known requested r h = from_alias-known requested config.upstreams _ r refl refl h

  with_prefix-known :
      (requested name model : String) (o : Option UpstreamConfig) (r : ResolvedModel)
      → upstream config name ≡ o
      → with_prefix config requested name model o ≡ ok r
      → is_some (upstream config r.upstream_name) ≡ true
  unfolding with_prefix
  with_prefix-known requested name model none r at h = without_prefix-known requested r h
  with_prefix-known requested name model (some u) r at h =
      let same : name ≡ r.upstream_name = ground arith in rw⁻¹ same (rw at refl)

  by_prefix-known :
      (requested : String) (o : Option (String × String)) (r : ResolvedModel)
      → by_prefix config requested o ≡ ok r
      → is_some (upstream config r.upstream_name) ≡ true
  unfolding by_prefix
  by_prefix-known requested none r h = without_prefix-known requested r h
  by_prefix-known requested (some (name, model)) r h =
      with_prefix-known requested name model (upstream config name) r refl h

  -- With aliases that passed validation, a model that is resolved at all is resolved to an upstream
  -- of the configuration.
  pub resolve_model-IsKnown :
      (requested : String) (r : ResolvedModel)
      → resolve_model config requested ≡ ok r
      → is_some (upstream config r.upstream_name) ≡ true
  unfolding resolve_model
  resolve_model-IsKnown requested r h = by_prefix-known requested (split_once requested) r h
