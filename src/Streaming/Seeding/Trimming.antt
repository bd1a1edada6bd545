-- ===== src/Streaming/Seeding/Trimming.antt =====
-- What the joined arguments are: nothing of the piece is lost, and of the start only what it takes.
use llm_universal_proxy.Prelude.{
  ◌≡◌, refl, sym, ap, ◌∙◌, ◌+◌, ◌-◌, ◌<◌, ◌≤◌, ℕ, zero, suc, min, String, Bool, true, false, ◌&&◌,
  Option, none, some, concat, len, is_empty, is_some, branches, arith, inl, inr, ◌⊎◌,
}
use Prim.Native.String.{slice}
use package.text.Mathlib.TextPositions.{slice_all, boundary-len}
use llm_universal_proxy.Streaming.{SerdeText}
use llm_universal_proxy.Streaming.Seeding.{
  max_seeded_trim_scan, candidate, is_candidate, scan_trims, trimmed, merge_seeded_tool_arguments,
}

module _ (z : SerdeText) (seed delta : String) where
  -- A trim that is found is within the scan, and what is left with it parses.
  abbrev IsWithin : ℕ → Option ℕ → Type 0
  IsWithin end_ none = Unit
  IsWithin end_ (some trim) = (trim < end_) × (is_candidate z seed delta trim ≡ true)

  scan_trims-IsWithin :
      (trim left end_ : ℕ) → trim + left ≤ end_ → IsWithin end_ (scan_trims z seed delta trim left)
  unfolding scan_trims
  scan_trims-IsWithin trim zero end_ h = tt
  scan_trims-IsWithin trim (suc left) end_ h =
      branches (IsWithin end_) (is_candidate z seed delta trim) (λ c. (omega (arith, h), c))
        λ _. scan_trims-IsWithin (trim + 1) left end_ (omega (arith, h))

  -- The start loses a few bytes at its end, none or such that what is left with the piece parses.
  abbrev pub IsMerged : String → Type 0
  IsMerged merged =
      (trim : ℕ) × (trim ≤ min (len seed) max_seeded_trim_scan)
      × (merged ≡ candidate seed delta trim)
      × ((trim ≡ 0) ⊎ (is_some (z.from_str (candidate seed delta trim)) ≡ true))

  untrimmed : candidate seed delta 0 ≡ concat seed delta
  untrimmed = ap (λ t. concat t delta) (ap (slice seed 0) (omega arith) ∙ slice_all seed)

  trimmed-IsMerged :
      (found : Option ℕ)
      → IsWithin (min (len seed) max_seeded_trim_scan + 1) found
      → IsMerged (trimmed seed delta found)
  trimmed-IsMerged none h = (0, omega arith, sym untrimmed, inl refl)
  trimmed-IsMerged (some trim) (lt, c) = (trim, omega (arith, lt), refl, inr (both _ _ c))
    where
      both : (a b : Bool) → (a && b) ≡ true → b ≡ true
      both true b h = h
      both false b h = cc

  first_trim :
      (left : ℕ)
      → 0 < left
      → is_candidate z seed delta 0 ≡ true
      → scan_trims z seed delta 0 left ≡ some 0
  unfolding scan_trims
  first_trim zero lt c = absurd (omega (arith, lt))
  first_trim (suc left) lt c = rw c refl

  -- Joined with a piece that is not empty, the start loses at most 4096 bytes at its end, and loses
  -- any only where what it leaves, with the piece, is JSON; the piece is there whole.
  pub merge-IsMerged : is_empty delta ≡ false → IsMerged (merge_seeded_tool_arguments z seed delta)
  unfolding merge_seeded_tool_arguments
  merge-IsMerged h = rw h (
      trimmed-IsMerged _
        (scan_trims-IsWithin 0 (min (len seed) max_seeded_trim_scan + 1) _ (omega arith)))

  -- Where the start and the piece together are JSON, that is what they are joined to.
  pub merge-whole :
      is_empty delta ≡ false
      → is_some (z.from_str (concat seed delta)) ≡ true
      → merge_seeded_tool_arguments z seed delta ≡ concat seed delta
  unfolding merge_seeded_tool_arguments
  merge-whole h parses =
      let size : len seed - 0 ≡ len seed = omega arith in
      let fits : is_candidate z seed delta 0 ≡ true =
        rw size (rw (boundary-len seed) (rw (slice_all seed) parses)) in
      rw h (ap (trimmed seed delta) (first_trim _ (omega arith) fits) ∙ untrimmed)
