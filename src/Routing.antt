-- ===== src/Routing.antt =====
-- src/config.rs: the upstreams and the model aliases of a configuration, how a model that a client
-- names is resolved, and the URLs of an upstream. The fields of `UpstreamConfig` and `Config` that
-- these functions do not read are left out, and so are the texts of the errors.
pub mod Resolution
use Prim.Native.Char.{Char, code}
use llm_universal_proxy.Prelude.{
  ℕ, suc, String, Bool, true, false, ◌≡◌, refl, ◌||◌, ◌&&◌, Option, none, some, List, [], ◌∷◌,
  length, Result, ok, err, ◌>>=◌, ◌>>◌, trim, str_eq, concat, and_then, is_none, ◌==◌, starts_with,
  if◌then◌else◌,
}
use llm_universal_proxy.Prelude.Map
use llm_universal_proxy.Prelude.Map.{Map}
use llm_universal_proxy.Formats.{
  UpstreamFormat, anthropic, open_ai_chat_completions, open_ai_responses,
}
use llm_universal_proxy.ModelSurface.{
  ModelLimits, ModelSurface, ModelSurfacePatch, SurfaceError, merge_limits, merge_patch,
  validate_patch,
}

abbrev is_colon : Char → Bool
is_colon c = code c == 58

abbrev is_slash : Char → Bool
is_slash c = code c == 47

pub record UpstreamConfig : Type 0 where
  pub name : String
  pub api_root : String
  pub limits : Option ModelLimits
  pub surface_defaults : Option ModelSurfacePatch

pub record ModelAlias : Type 0 where
  pub upstream_name : String
  pub upstream_model : String
  pub limits : Option ModelLimits
  pub surface : Option ModelSurfacePatch

pub record ResolvedModel : Type 0 where
  pub upstream_name : String
  pub upstream_model : String

pub record Config : Type 0 where
  pub upstreams : List UpstreamConfig
  pub model_aliases : Map ModelAlias

pub data ConfigError : Type 0 where
  empty_alias empty_alias_model empty_model zero_context_window zero_max_output_tokens
        ambiguous_model :
      ConfigError
  unknown_upstream : String → ConfigError
  surface_error : SurfaceError → ConfigError

find_upstream : String → List UpstreamConfig → Option UpstreamConfig
find_upstream name [] = none
find_upstream name (u ∷ us) = if str_eq u.name name then some u else find_upstream name us

-- `Config::upstream`
unfoldable pub upstream : Config → String → Option UpstreamConfig
unfolding find_upstream
upstream config name = find_upstream name config.upstreams

-- `str::split_once(':')`
unfoldable pub split_once : String → Option (String × String)
split_once String.[] = none
split_once (String.◌∷◌ c s) =
    let rest = split_once s in
    if is_colon c then some ("", s) else and_then rest (λ p. some (String.◌∷◌ c p.0, p.1))

from_alias : String → List UpstreamConfig → Option ModelAlias → Result ConfigError ResolvedModel
from_alias requested us (some alias) =
    ok (record { upstream_name = alias.upstream_name; upstream_model = alias.upstream_model })
from_alias requested (u ∷ []) none =
    ok (record { upstream_name = u.name; upstream_model = requested })
from_alias requested [] none = err ambiguous_model
from_alias requested (_ ∷ _ ∷ _) none = err ambiguous_model

-- The part of `resolve_model` behind the explicit prefix: the alias, or the only upstream.
without_prefix : Config → String → Result ConfigError ResolvedModel
unfolding from_alias
without_prefix config requested =
    from_alias requested config.upstreams (Map.get requested config.model_aliases)

with_prefix :
    Config → String → String → String → Option UpstreamConfig → Result ConfigError ResolvedModel
unfolding without_prefix
with_prefix config requested name model none = without_prefix config requested
with_prefix config requested name model (some _) =
    if str_eq (trim model) ""
    then err empty_model
    else ok (record { upstream_name = name; upstream_model = model })

by_prefix : Config → String → Option (String × String) → Result ConfigError ResolvedModel
unfolding with_prefix without_prefix
by_prefix config requested none = without_prefix config requested
by_prefix config requested (some (name, model)) =
    with_prefix config requested name model (upstream config name)

unfoldable pub resolve_model : Config → String → Result ConfigError ResolvedModel
unfolding by_prefix
resolve_model config requested_model = by_prefix config requested_model (split_once requested_model)

abbrev is_zero : Option ℕ → Bool
is_zero none = false
is_zero (some n) = n == 0

-- `ModelLimits::validate`
unfoldable pub validate_limits : Option ModelLimits → Result ConfigError (Unit {0})
validate_limits none = ok tt
validate_limits (some l) =
    if is_zero l.context_window
    then err zero_context_window
    else if is_zero l.max_output_tokens
    then err zero_max_output_tokens
    else ok tt

abbrev lift : Result SurfaceError (Unit {0}) → Result ConfigError (Unit {0})
lift (ok _) = ok tt
lift (err e) = err (surface_error e)

abbrev validate_surface : Option ModelSurfacePatch → Result ConfigError (Unit {0})
validate_surface none = ok tt
validate_surface (some s) = lift (validate_patch s.modalities)

-- The body of the loop of `Config::validate` over the aliases.
validate_alias : Config → String → ModelAlias → Result ConfigError (Unit {0})
validate_alias config alias target =
    if str_eq (trim alias) ""
    then err empty_alias
    else if is_none (upstream config target.upstream_name)
    then err (unknown_upstream target.upstream_name)
    else if str_eq (trim target.upstream_model) ""
    then err empty_alias_model
    else (do validate_limits target.limits; validate_surface target.surface)

validate_each : Config → Map ModelAlias → Result ConfigError (Unit {0})
unfolding validate_alias
validate_each config [] = ok tt
validate_each config ((alias, target) ∷ rest) =
    let later = validate_each config rest in do validate_alias config alias target; later

unfoldable pub validate_aliases : Config → Result ConfigError (Unit {0})
unfolding validate_each
validate_aliases config = validate_each config config.model_aliases

merge_base : Option ModelLimits → Option ModelLimits → Option ModelLimits
merge_base (some base) over = merge_limits base over
merge_base none over = over

unfoldable pub effective_model_limits : Config → ModelAlias → Option ModelLimits
unfolding merge_base
effective_model_limits config alias =
    merge_base (and_then (upstream config alias.upstream_name) (λ u. u.limits)) alias.limits

abbrev patch_or_default : Option ModelSurfacePatch → ModelSurfacePatch
patch_or_default none = record { modalities = none; tools = none }
patch_or_default (some p) = p

unfoldable pub effective_model_surface : Config → ModelAlias → ModelSurface
effective_model_surface config alias =
    let merged =
      merge_patch
        (patch_or_default
          (and_then (upstream config alias.upstream_name) (λ u. u.surface_defaults)))
        alias.surface in
    record {
      limits = effective_model_limits config alias;
      modalities = merged.modalities;
      tools = merged.tools;
    }

-- `trim_end_matches('/')`
unfoldable pub trim_end_slash : String → String
trim_end_slash String.[] = String.[]
trim_end_slash (String.◌∷◌ c s) =
    let rest = trim_end_slash s in
    if is_slash c && str_eq rest "" then String.[] else String.◌∷◌ c rest

-- `trim_start_matches('/')`
unfoldable pub trim_start_slash : String → String
trim_start_slash String.[] = String.[]
trim_start_slash (String.◌∷◌ c s) =
    let rest = trim_start_slash s in if is_slash c then rest else String.◌∷◌ c s

abbrev endpoint : UpstreamFormat → String
endpoint open_ai_chat_completions = "/chat/completions"
endpoint open_ai_responses = "/responses"
endpoint anthropic = "/messages"

unfoldable pub build_upstream_url : String → UpstreamFormat → String
build_upstream_url api_root format = concat (trim_end_slash api_root) (endpoint format)

unfoldable pub build_upstream_resource_url : String → String → String
build_upstream_resource_url api_root resource_path =
    concat (trim_end_slash api_root) (concat "/" (trim_start_slash resource_path))
