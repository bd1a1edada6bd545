-- ===== src/DashboardLogs/Recent.antt =====
-- The buffer holds the most recent of the lines that were pushed.
use llm_universal_proxy.Prelude.{
  ◌≡◌, ◌≢◌, refl, sym, ap, ◌∙◌, ◌-◌, ◌<◌, ◌≤◌, ℕ, zero, suc, String, Bool, true, false, List, [],
  ◌∷◌, ◌++◌, length, drop, max, ◌==◌, is_empty, if◌then◌else◌, length-append, arith,
}
use mathlib.Core.List.{append-nil, append_assoc}
use llm_universal_proxy.DashboardLogs.{
  DashboardLogBuffer, new_buffer, sanitize_log_line, push_back, push_line,
}

abbrev pub push_all : DashboardLogBuffer → List String → DashboardLogBuffer
push_all b [] = b
push_all b (line ∷ ls) = push_all (push_line b line) ls

pub push_all-append :
    (b : DashboardLogBuffer) (xs ys : List String)
    → push_all b (xs ++ ys) ≡ push_all (push_all b xs) ys
push_all-append b [] ys = refl
push_all-append b (x ∷ xs) ys = push_all-append (push_line b x) xs ys

-- The lines that are not blank, without the blanks around them.
unfoldable pub kept : List String → List String
kept [] = []
kept (line ∷ ls) =
    let rest = kept ls in
    let clean = sanitize_log_line line in if is_empty clean then rest else clean ∷ rest

-- The last items, `n` at most.
abbrev pub recent {ℓ} : {A : Type ℓ} → ℕ → List A → List A
recent n xs = drop (length xs - n) xs

module _ {ℓ} {A : Type ℓ} where
  drop-append : (n : ℕ) (xs ys : List A) → n ≤ length xs → drop n (xs ++ ys) ≡ drop n xs ++ ys
  drop-append zero xs ys h = refl
  drop-append (suc n) [] ys h = absurd (omega (arith, h))
  drop-append (suc n) (x ∷ xs) ys h = drop-append n xs ys (omega (arith, h))

  drop-drop : (n : ℕ) (xs : List A) → drop 1 (drop n xs) ≡ drop (suc n) xs
  drop-drop zero [] = refl
  drop-drop zero (x ∷ xs) = refl
  drop-drop (suc n) [] = refl
  drop-drop (suc n) (x ∷ xs) = drop-drop n xs

  length-drop : (n : ℕ) (xs : List A) → length (drop n xs) ≡ length xs - n
  length-drop zero xs = omega arith
  length-drop (suc n) [] = omega arith
  length-drop (suc n) (x ∷ xs) = omega (arith, length-drop n xs)

  -- One more item, where the first makes room for it at the capacity.
  recent-push :
      (n : ℕ) (xs : List A) (x : A) (full : Bool)
      → 0 < n
      → (length (recent n xs) == n) ≡ full
      → (if full then drop 1 (recent n xs) else recent n xs) ++ x ∷ [] ≡ recent n (xs ++ x ∷ [])
  recent-push n xs x true h full =
      let whole : length (recent n xs) ≡ n = ground (arith, full) in
      let size : n ≤ length xs = omega (arith, whole, length-drop (length xs - n) xs) in
      let next : length (xs ++ x ∷ []) - n ≡ suc (length xs - n) =
        omega (arith, length-append xs (x ∷ []), size, h) in
      let kept_items : suc (length xs - n) ≤ length xs = omega (arith, size, h) in
      ap (λ (ys : List A). ys ++ x ∷ []) (drop-drop (length xs - n) xs)
      ∙ sym (drop-append (suc (length xs - n)) xs (x ∷ []) kept_items)
      ∙ ap (λ k. drop k (xs ++ x ∷ [])) (sym next)
  recent-push n xs x false h full =
      let other : length (recent n xs) ≢ n = ground (arith, full) in
      let fewer : length xs < n = omega (arith, other, length-drop (length xs - n) xs) in
      let next : length (xs ++ x ∷ []) - n ≡ length xs - n =
        omega (arith, length-append xs (x ∷ []), fewer) in
      sym (drop-append (length xs - n) xs (x ∷ []) (omega arith))
      ∙ ap (λ k. drop k (xs ++ x ∷ [])) (sym next)

-- The buffer after `xs` lines that were kept.
abbrev holding : ℕ → List String → DashboardLogBuffer
holding n xs = record { capacity = n; lines = recent n xs }

holding-push :
    (n : ℕ) (xs : List String) (x : String)
    → 0 < n
    → push_back (holding n xs) x ≡ holding n (xs ++ x ∷ [])
holding-push n xs x h =
    ap (λ (ls : List String). record { capacity = n; lines = ls }) (recent-push n xs x _ h refl)

holding-push_line :
    (n : ℕ) (xs : List String) (x : String) (blank : Bool)
    → 0 < n
    → (if blank then holding n xs else push_back (holding n xs) x)
      ≡ holding n (xs ++ (if blank then [] else x ∷ []))
holding-push_line n xs x true h = ap (holding n) (sym (append-nil xs))
holding-push_line n xs x false h = holding-push n xs x h

regroup :
    (xs : List String) (x : String) (ys : List String) (blank : Bool)
    → (xs ++ (if blank then [] else x ∷ [])) ++ ys ≡ xs ++ (if blank then ys else x ∷ ys)
regroup xs x ys true = ap (λ (zs : List String). zs ++ ys) (append-nil xs)
regroup xs x ys false = append_assoc xs (x ∷ []) ys

drop-nil : (n : ℕ) → drop {A = String} n [] ≡ []
drop-nil zero = refl
drop-nil (suc n) = refl

holding-push_all :
    (n : ℕ) (ls xs : List String) → 0 < n → push_all (holding n xs) ls ≡ holding n (xs ++ kept ls)
unfolding push_line kept
holding-push_all n [] xs h = ap (holding n) (sym (append-nil xs))
holding-push_all n (l ∷ ls) xs h =
    ap (λ (b : DashboardLogBuffer). push_all b ls)
      (holding-push_line n xs (sanitize_log_line l) _ h)
    ∙ holding-push_all n ls _ h
    ∙ ap (holding n) (regroup xs (sanitize_log_line l) (kept ls) _)

-- After any pushes, a new buffer holds the most recent lines that were not blank, in their order, as
-- many as its capacity, which is at least one.
pub pushed-IsRecent :
    (n : ℕ) (ls : List String)
    → push_all (new_buffer n) ls ≡ record { capacity = max n 1; lines = recent (max n 1) (kept ls) }
pushed-IsRecent n ls =
    ap
      (λ (kept_lines : List String).
        push_all (record { capacity = max n 1; lines = kept_lines }) ls)
      (sym (drop-nil (0 - max n 1)))
    ∙ holding-push_all (max n 1) ls [] (omega arith)
