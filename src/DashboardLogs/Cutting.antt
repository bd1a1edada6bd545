-- ===== src/DashboardLogs/Cutting.antt =====
-- A text cut at its line feeds, and the writer's loop, which cuts it so.
use Prim.Native.Char.{Char, code}
use llm_universal_proxy.Prelude.{
  ◌≡◌, refl, sym, ap, ◌∙◌, ◌<◌, ◌≤◌, ℕ, zero, suc, String, Bool, true, false, Option, none, some,
  List, [], ◌∷◌, ◌++◌, map, ◌==◌, concat, is_empty, if◌then◌else◌, arith,
}
use package.text.Mathlib.TextLemmas.{cons-append}
use llm_universal_proxy.DashboardLogs.{
  DashboardLogBuffer, DashboardLogWriter, chars, take_line, pop_end, drain_lines, before,
  drain_next, push_taken,
}
use llm_universal_proxy.DashboardLogs.Recent.{push_all}

abbrev Cut : Type 0
Cut = List String × String

abbrev onto : Char → Cut → Cut
onto c ([], t) = ([], String.◌∷◌ c t)
onto c (l ∷ ls, t) = (String.◌∷◌ c l ∷ ls, t)

abbrev at_line : Bool → Char → Cut → Cut
at_line true c (ls, t) = (String.[] ∷ ls, t)
at_line false c u = onto c u

-- The lines of a text without their line feeds, and what follows the last line feed.
unfoldable pub cut : String → List String × String
cut String.[] = ([], String.[])
cut (String.◌∷◌ c s) = at_line (code c == 10) c (cut s)

abbrev pub and_then_cut : List String × String → String → List String × String
and_then_cut (ls, t) y = (ls ++ (cut (concat t y)).0, (cut (concat t y)).1)

at_line-and_then_cut :
    (c : Char) (u : Cut) (y : String) (b : Bool)
    → (code c == 10) ≡ b
    → at_line b c (and_then_cut u y) ≡ and_then_cut (at_line b c u) y
unfolding cut
at_line-and_then_cut c (ls, t) y true h = refl
at_line-and_then_cut c ([], t) y false h =
    ap (λ b. at_line b c (cut (concat t y))) (sym h) ∙ ap cut (sym (cons-append c t y))
at_line-and_then_cut c (l ∷ ls, t) y false h = refl

-- A text that comes in two pieces is cut like the whole.
pub cut-concat : (x y : String) → cut (concat x y) ≡ and_then_cut (cut x) y
unfolding cut
cut-concat String.[] y = refl
cut-concat (String.◌∷◌ c s) y =
    ap cut (cons-append c s y)
    ∙ ap (at_line _ c) (cut-concat s y)
    ∙ at_line-and_then_cut c (cut s) y _ refl

-- The text that the loop takes is the first line with its line feed.
abbrev Taken : String → Option (String × String) → Type 0
Taken s none = cut s ≡ ([], s)
Taken s (some (line, rest)) =
    (is_empty line ≡ false)
    × (cut s ≡ (pop_end 10 line ∷ (cut rest).0, (cut rest).1))
    × (chars rest < chars s)

pop_end-cons :
    (c : Char) (line : String)
    → is_empty line ≡ false
    → pop_end 10 (String.◌∷◌ c line) ≡ String.◌∷◌ c (pop_end 10 line)
unfolding pop_end
pop_end-cons c String.[] h = cc
pop_end-cons c (String.◌∷◌ d line) h = refl

take_step :
    (c : Char) (s : String) (found : Option (String × String)) (b : Bool)
    → (code c == 10) ≡ b
    → Taken s found
    → Taken (String.◌∷◌ c s) (if b then some (String.◌∷◌ c String.[], s) else before c found)
unfolding cut pop_end
take_step c s found true h t = (
  refl,
  ap (λ b. at_line b c (cut s)) h
      ∙ ap
          (λ (b : Bool). ((if b then String.[] else String.◌∷◌ c String.[]) ∷ (cut s).0, (cut s).1))
          (sym h),
  omega arith,
)
take_step c s none false h t = ap (λ b. at_line b c (cut s)) h ∙ ap (onto c) t
take_step c s (some (line, rest)) false h (full, e, lt) = (
  refl,
  ap (λ b. at_line b c (cut s)) h
      ∙ ap (onto c) e
      ∙ ap (λ (l : String). (l ∷ (cut rest).0, (cut rest).1)) (sym (pop_end-cons c line full)),
  omega (arith, lt),
)

take_line-Taken : (s : String) → Taken s (take_line s)
unfolding take_line cut
take_line-Taken String.[] = refl
take_line-Taken (String.◌∷◌ c s) = take_step c s (take_line s) _ refl (take_line-Taken s)

abbrev pub drained : DashboardLogBuffer → List String × String → DashboardLogWriter
drained b (ls, t) = record { buffer = push_all b (map (pop_end 13) ls); pending = t }

drain_next-cut :
    (n : ℕ) (b : DashboardLogBuffer) (p : String) (found : Option (String × String))
    → ((b₁ : DashboardLogBuffer) (rest : String)
        → chars rest ≤ n
        → drain_lines n b₁ rest ≡ drained b₁ (cut rest))
    → chars p ≤ suc n
    → Taken p found
    → drain_next (drain_lines n) (record { buffer = b; pending = p }) found ≡ drained b (cut p)
drain_next-cut n b p none again h t = ap (drained b) (sym t)
drain_next-cut n b p (some (line, rest)) again h (full, e, lt) =
    again (push_taken b line) rest (omega (arith, h, lt)) ∙ ap (drained b) (sym e)

-- With fuel for each character, the loop pushes each line, and leaves what follows the last one.
pub drain_lines-cut :
    (n : ℕ) (b : DashboardLogBuffer) (p : String)
    → chars p ≤ n
    → drain_lines n b p ≡ drained b (cut p)
unfolding drain_lines cut
drain_lines-cut zero b String.[] h = refl
drain_lines-cut zero b (String.◌∷◌ c s) h = absurd (omega (arith, h))
drain_lines-cut (suc n) b p h =
    drain_next-cut n b p (take_line p) (drain_lines-cut n) h (take_line-Taken p)

at_line_rest :
    (c : Char) (u : Cut) (b : Bool)
    → (code c == 10) ≡ b
    → cut u.1 ≡ ([], u.1)
    → cut (at_line b c u).1 ≡ ([], (at_line b c u).1)
unfolding cut
at_line_rest c (ls, t) true h e = e
at_line_rest c ([], t) false h e = ap (λ b. at_line b c (cut t)) h ∙ ap (onto c) e
at_line_rest c (l ∷ ls, t) false h e = e

-- What follows the last line feed has none.
pub cut_rest : (x : String) → cut (cut x).1 ≡ ([], (cut x).1)
unfolding cut
cut_rest String.[] = refl
cut_rest (String.◌∷◌ c s) = at_line_rest c (cut s) _ refl (cut_rest s)
