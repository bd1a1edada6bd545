-- ===== src/ModelSurface.antt =====
-- src/config/model_surface.rs, and `ModelLimits` of src/config.rs: what a model can do, in two
-- layers, the upstream's and that of an alias, which overrides it field by field.
pub mod Layers
pub mod Validation
use llm_universal_proxy.Prelude.{
  ℕ, String, Bool, true, false, ◌&&◌, ◌||◌, Option, none, some, List, [], ◌∷◌, Result, ok, err,
  or_option, and_then, is_none, any, ◌==◌, ◌>>=◌, ◌>>◌, if◌then◌else◌,
}

pub record ModelLimits : Type 0 where
  pub context_window : Option ℕ
  pub max_output_tokens : Option ℕ

pub data ModelModality : Type 0 where
  text image audio pdf file video : ModelModality

pub data ApplyPatchTransport : Type 0 where
  function freeform : ApplyPatchTransport

pub record ModelModalities : Type 0 where
  pub input : Option (List ModelModality)
  pub output : Option (List ModelModality)

pub record ModelToolSurface : Type 0 where
  pub supports_search : Option Bool
  pub supports_view_image : Option Bool
  pub apply_patch_transport : Option ApplyPatchTransport
  pub supports_parallel_calls : Option Bool

pub record ModelSurfacePatch : Type 0 where
  pub modalities : Option ModelModalities
  pub tools : Option ModelToolSurface

pub record ModelSurface : Type 0 where
  pub limits : Option ModelLimits
  pub modalities : Option ModelModalities
  pub tools : Option ModelToolSurface

-- The four `merged_with` bear the names of their types here.
unfoldable pub merge_limits : ModelLimits → Option ModelLimits → Option ModelLimits
merge_limits self overrides =
    let merged : ModelLimits = record {
      context_window =
          or_option (and_then overrides (λ item. item.context_window)) self.context_window;
      max_output_tokens =
          or_option (and_then overrides (λ item. item.max_output_tokens)) self.max_output_tokens;
    } in
    if is_none merged.context_window && is_none merged.max_output_tokens then none else some merged

unfoldable pub merge_modalities : ModelModalities → Option ModelModalities → Option ModelModalities
merge_modalities self overrides =
    let merged : ModelModalities = record {
      input = or_option (and_then overrides (λ item. item.input)) self.input;
      output = or_option (and_then overrides (λ item. item.output)) self.output;
    } in
    if is_none merged.input && is_none merged.output then none else some merged

unfoldable pub merge_tools : ModelToolSurface → Option ModelToolSurface → Option ModelToolSurface
merge_tools self overrides =
    let merged : ModelToolSurface = record {
      supports_search =
          or_option (and_then overrides (λ item. item.supports_search)) self.supports_search;
      supports_view_image =
          or_option (and_then overrides (λ item. item.supports_view_image))
            self.supports_view_image;
      apply_patch_transport =
          or_option (and_then overrides (λ item. item.apply_patch_transport))
            self.apply_patch_transport;
      supports_parallel_calls =
          or_option (and_then overrides (λ item. item.supports_parallel_calls))
            self.supports_parallel_calls;
    } in
    if is_none merged.supports_search
      && is_none merged.supports_view_image
      && is_none merged.apply_patch_transport
      && is_none merged.supports_parallel_calls
    then none
    else some merged

-- The `match` on a base part and an overriding part.
abbrev merge_part : {A : Type 0} → (A → Option A → Option A) → Option A → Option A → Option A
merge_part merge (some base) over = merge base over
merge_part merge none (some over) = some over
merge_part merge none none = none

unfoldable pub merge_patch : ModelSurfacePatch → Option ModelSurfacePatch → ModelSurfacePatch
merge_patch self overrides = record {
  modalities =
      merge_part merge_modalities self.modalities (and_then overrides (λ item. item.modalities));
  tools = merge_part merge_tools self.tools (and_then overrides (λ item. item.tools));
}

pub data SurfaceError : Type 0 where
  must_not_be_empty : SurfaceError
  duplicate_modality : ModelModality → SurfaceError

abbrev pub modality_index : ModelModality → ℕ
modality_index text = 0
modality_index image = 1
modality_index audio = 2
modality_index pdf = 3
modality_index file = 4
modality_index video = 5

abbrev pub same_modality : ModelModality → ModelModality → Bool
same_modality a b = modality_index a == modality_index b

-- The loop over the items; `seen` is the set of those before.
check_modalities : List ModelModality → List ModelModality → Result SurfaceError (Unit {0})
check_modalities seen [] = ok tt
check_modalities seen (item ∷ rest) =
    let later = check_modalities (item ∷ seen) rest in
    if any (same_modality item) seen then err (duplicate_modality item) else later

unfoldable pub validate_modality_list : Option (List ModelModality) → Result SurfaceError (Unit {0})
unfolding check_modalities
validate_modality_list none = ok tt
validate_modality_list (some []) = err must_not_be_empty
validate_modality_list (some (a ∷ rest)) = check_modalities [] (a ∷ rest)

-- `ModelModalities::validate`
unfoldable pub validate_modalities : ModelModalities → Result SurfaceError (Unit {0})
validate_modalities m = do validate_modality_list m.input; validate_modality_list m.output

-- `ModelSurfacePatch::validate`
unfoldable pub validate_patch : Option ModelModalities → Result SurfaceError (Unit {0})
validate_patch none = ok tt
validate_patch (some m) = validate_modalities m
