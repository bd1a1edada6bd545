-- ===== src/ModelSurface/Layers.antt =====
-- Merging two layers, read field by field: the override where it is set, else the base.
use llm_universal_proxy.Prelude.{
  Bool, ◌≡◌, refl, Option, none, some, List, or_option, and_then, arith,
}
use llm_universal_proxy.ModelSurface.{
  ModelLimits, ModelModality, ApplyPatchTransport, ModelModalities, ModelToolSurface,
  ModelSurfacePatch, merge_limits, merge_modalities, merge_tools, merge_part, merge_patch,
}

abbrev pub modality_input : ModelSurfacePatch → Option (List ModelModality)
modality_input p = and_then p.modalities (λ m. m.input)

abbrev pub modality_output : ModelSurfacePatch → Option (List ModelModality)
modality_output p = and_then p.modalities (λ m. m.output)

abbrev pub search_tool : ModelSurfacePatch → Option Bool
search_tool p = and_then p.tools (λ t. t.supports_search)

abbrev pub view_image_tool : ModelSurfacePatch → Option Bool
view_image_tool p = and_then p.tools (λ t. t.supports_view_image)

abbrev pub patch_transport : ModelSurfacePatch → Option ApplyPatchTransport
patch_transport p = and_then p.tools (λ t. t.apply_patch_transport)

abbrev pub parallel_calls : ModelSurfacePatch → Option Bool
parallel_calls p = and_then p.tools (λ t. t.supports_parallel_calls)

-- Every setting of `m` is that of `over` where it is set, and else that of `base`.
pub record IsLayered (m base over : ModelSurfacePatch) : Type 0 where
  pub input : modality_input m ≡ or_option (modality_input over) (modality_input base)
  pub output : modality_output m ≡ or_option (modality_output over) (modality_output base)
  pub search : search_tool m ≡ or_option (search_tool over) (search_tool base)
  pub view_image : view_image_tool m ≡ or_option (view_image_tool over) (view_image_tool base)
  pub transport : patch_transport m ≡ or_option (patch_transport over) (patch_transport base)
  pub parallel : parallel_calls m ≡ or_option (parallel_calls over) (parallel_calls base)

merge_modalities_input :
    (b : ModelModalities) (o : Option ModelModalities)
    → and_then (merge_modalities b o) (λ m. m.input) ≡ or_option (and_then o (λ m. m.input)) b.input
unfolding merge_modalities
merge_modalities_input b o = ground arith

merge_modalities_output :
    (b : ModelModalities) (o : Option ModelModalities)
    → and_then (merge_modalities b o) (λ m. m.output)
      ≡ or_option (and_then o (λ m. m.output)) b.output
unfolding merge_modalities
merge_modalities_output b o = ground arith

merge_tools_search :
    (b : ModelToolSurface) (o : Option ModelToolSurface)
    → and_then (merge_tools b o) (λ m. m.supports_search)
      ≡ or_option (and_then o (λ m. m.supports_search)) b.supports_search
unfolding merge_tools
merge_tools_search b o = ground arith

merge_tools_view_image :
    (b : ModelToolSurface) (o : Option ModelToolSurface)
    → and_then (merge_tools b o) (λ m. m.supports_view_image)
      ≡ or_option (and_then o (λ m. m.supports_view_image)) b.supports_view_image
unfolding merge_tools
merge_tools_view_image b o = ground arith

merge_tools_transport :
    (b : ModelToolSurface) (o : Option ModelToolSurface)
    → and_then (merge_tools b o) (λ m. m.apply_patch_transport)
      ≡ or_option (and_then o (λ m. m.apply_patch_transport)) b.apply_patch_transport
unfolding merge_tools
merge_tools_transport b o = ground arith

merge_tools_parallel :
    (b : ModelToolSurface) (o : Option ModelToolSurface)
    → and_then (merge_tools b o) (λ m. m.supports_parallel_calls)
      ≡ or_option (and_then o (λ m. m.supports_parallel_calls)) b.supports_parallel_calls
unfolding merge_tools
merge_tools_parallel b o = ground arith

module _ {P A : Type 0} (read : P → Option A) (merge : P → Option P → Option P)
    (fieldwise : (b : P) (o : Option P)
      → and_then (merge b o) read ≡ or_option (and_then o read) (read b)) where
  merge_part-read :
      (b o : Option P)
      → and_then (merge_part merge b o) read ≡ or_option (and_then o read) (and_then b read)
  merge_part-read (some b) o = fieldwise b o
  merge_part-read none (some o) = ground arith
  merge_part-read none none = refl

-- `merged_with` of a patch layers the override over the base, setting by setting.
pub merge_patch-IsLayered :
    (base over : ModelSurfacePatch) → IsLayered (merge_patch base (some over)) base over
unfolding merge_patch
merge_patch-IsLayered base over = record {
  input = merge_part-read _ merge_modalities merge_modalities_input base.modalities over.modalities;
  output =
      merge_part-read _ merge_modalities merge_modalities_output base.modalities over.modalities;
  search = merge_part-read _ merge_tools merge_tools_search base.tools over.tools;
  view_image = merge_part-read _ merge_tools merge_tools_view_image base.tools over.tools;
  transport = merge_part-read _ merge_tools merge_tools_transport base.tools over.tools;
  parallel = merge_part-read _ merge_tools merge_tools_parallel base.tools over.tools;
}

-- The same of the limits, which are left out when neither is set.
pub merge_limits_layered :
    (base : ModelLimits) (over : Option ModelLimits)
    → (and_then (merge_limits base over) (λ l. l.context_window)
        ≡ or_option (and_then over (λ l. l.context_window)) base.context_window)
      × (and_then (merge_limits base over) (λ l. l.max_output_tokens)
          ≡ or_option (and_then over (λ l. l.max_output_tokens)) base.max_output_tokens)
unfolding merge_limits
merge_limits_layered base over = (ground arith, ground arith)
