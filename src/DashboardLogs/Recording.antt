-- ===== src/DashboardLogs/Recording.antt =====
-- What the dashboard shows of a text that the writer gets in pieces.
use llm_universal_proxy.Prelude.{
  ◌≡◌, sym, ap, ◌∙◌, ℕ, max, String, List, [], ◌∷◌, ◌++◌, map, concat, is_empty, if◌then◌else◌,
  arith,
}
use mathlib.Core.List.{append-nil, map-append}
use package.text.Mathlib.TextLemmas as texts
use llm_universal_proxy.DashboardLogs.{
  DashboardLogBuffer, DashboardLogWriter, new_buffer, new_writer, snapshot, pop_end, flush_tail,
  write_all, flush,
}
use llm_universal_proxy.DashboardLogs.Recent.{
  push_all, push_all-append, kept, recent, pushed-IsRecent,
}
use llm_universal_proxy.DashboardLogs.Cutting.{
  cut, cut-concat, and_then_cut, drained, drain_lines-cut, cut_rest,
}

abbrev last_line : String → List String
last_line t = if is_empty t then [] else t ∷ []

-- The lines of a text without their ends, the last one also where no line feed ends it.
abbrev lines_of : List String × String → List String
lines_of (ls, t) = map (pop_end 13) ls ++ last_line t

unfoldable pub lines_in : String → List String
unfolding cut
lines_in s = lines_of (cut s)

drained-and_then_cut :
    (b : DashboardLogBuffer) (u : List String × String) (y : String)
    → drained (drained b u).buffer (cut (concat u.1 y)) ≡ drained b (and_then_cut u y)
drained-and_then_cut b (ls, t) y =
    let v = cut (concat t y) in
    ap (λ (b₁ : DashboardLogBuffer). record { buffer = b₁; pending = v.1 })
      (sym (push_all-append b (map (pop_end 13) ls) (map (pop_end 13) v.0))
        ∙ ap (push_all b) (sym (map-append (pop_end 13) ls v.0)))

flush_tail-lines :
    (b : DashboardLogBuffer) (u : List String × String)
    → (flush_tail (drained b u)).buffer ≡ push_all b (lines_of u)
flush_tail-lines b (ls, String.[]) = ap (push_all b) (sym (append-nil (map (pop_end 13) ls)))
flush_tail-lines b (ls, String.◌∷◌ c t) =
    sym (push_all-append b (map (pop_end 13) ls) (String.◌∷◌ c t ∷ []))

module _ (from_utf8_lossy : List ℕ → String) where
  -- The texts of what is written, each decoded by itself, in one.
  abbrev pub written : List (List ℕ) → String
  written [] = String.[]
  written (buf ∷ bufs) = concat (from_utf8_lossy buf) (written bufs)

  write_all-cut :
      (bufs : List (List ℕ)) (b : DashboardLogBuffer) (x : String)
      → write_all from_utf8_lossy (drained b (cut x)) bufs
        ≡ drained b (cut (concat x (written bufs)))
  write_all-cut [] b x = ap (λ s. drained b (cut s)) (sym (texts.append-nil x))
  write_all-cut (buf ∷ bufs) b x =
      let piece = from_utf8_lossy buf in
      ap (λ (w : DashboardLogWriter). write_all from_utf8_lossy w bufs)
        (drain_lines-cut _ (drained b (cut x)).buffer (concat (cut x).1 piece) (omega arith)
          ∙ drained-and_then_cut b (cut x) piece
          ∙ ap (drained b) (sym (cut-concat x piece)))
      ∙ write_all-cut bufs b (concat x piece)
      ∙ ap (λ s. drained b (cut s)) (texts.append_assoc x piece (written bufs))

  flush-cut :
      (b : DashboardLogBuffer) (x : String)
      → (flush (drained b (cut x))).buffer ≡ push_all b (lines_in x)
  unfolding lines_in
  flush-cut b x =
      ap (λ (w : DashboardLogWriter). (flush_tail w).buffer)
        (drain_lines-cut _ (drained b (cut x)).buffer (cut x).1 (omega arith)
          ∙ ap (drained (drained b (cut x)).buffer) (cut_rest x))
      ∙ flush_tail-lines b (cut x)

  -- However a text comes in pieces, when the writer is flushed the buffer shows the last lines of the
  -- whole text that are not blank, cut at its line feeds, as many as the capacity, which is at least
  -- one. Each piece is decoded by itself.
  pub recorded-IsRecent :
      (n : ℕ) (bufs : List (List ℕ))
      → snapshot (flush (write_all from_utf8_lossy (new_writer (new_buffer n)) bufs)).buffer
        ≡ recent (max n 1) (kept (lines_in (written bufs)))
  unfolding cut
  recorded-IsRecent n bufs =
      ap (λ (w : DashboardLogWriter). snapshot (flush w).buffer)
        (write_all-cut bufs (new_buffer n) String.[])
      ∙ ap snapshot (flush-cut (new_buffer n) _)
      ∙ ap snapshot (pushed-IsRecent n _)
      ∙ ap (λ s. recent (max n 1) (kept (lines_in s))) (texts.nil-append (written bufs))
