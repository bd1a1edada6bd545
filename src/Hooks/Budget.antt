-- ===== src/Hooks/Budget.antt =====
-- The budget of pending bytes while several threads reserve and release.
use llm_universal_proxy.Prelude.{
  ℕ, zero, suc, ◌+◌, ◌≤◌, ◌≡◌, refl, some, List, [], ◌∷◌, get_elem?, u64_max, leb, min, arith,
  if◌then◌else◌,
}
use llm_universal_proxy.Hooks.{Turn, refused, retry, reserved, try_reserve_turn, release}

-- The cell, and the reservations that were granted and are not released yet.
pub record Budget : Type 0 where
  pub pending : ℕ
  pub granted : List ℕ

abbrev pub sum : List ℕ → ℕ
sum [] = 0
sum (n ∷ ns) = n + sum ns

abbrev pub without : List ℕ → ℕ → List ℕ
without [] i = []
without (n ∷ ns) zero = ns
without (n ∷ ns) (suc i) = n ∷ without ns i

-- A turn of `try_reserve` takes effect where the exchange comes; `current` is any older load.
abbrev pub after_turn : ℕ → Turn → Budget → Budget
after_turn bytes (reserved next) b = record { pending = next; granted = bytes ∷ b.granted }
after_turn bytes refused b = b
after_turn bytes retry b = b

pub data Step (max_pending_bytes : ℕ) : Budget → Budget → Type 0 where
  turn :
      (b : Budget) (bytes current : ℕ)
      → Step max_pending_bytes b
          (after_turn bytes (try_reserve_turn max_pending_bytes bytes current b.pending) b)
  release_granted :
      (b : Budget) (i bytes : ℕ)
      → get_elem? b.granted i ≡ some bytes
      → Step max_pending_bytes b
          (record { pending = release bytes b.pending; granted = without b.granted i })

pub data Reach (max_pending_bytes : ℕ) : Budget → Type 0 where
  here : Reach max_pending_bytes (record { pending = 0; granted = [] })
  next :
      {b b' : Budget}
      → Reach max_pending_bytes b
      → Step max_pending_bytes b b'
      → Reach max_pending_bytes b'

sum-without : (ns : List ℕ) (i n : ℕ) → get_elem? ns i ≡ some n → n + sum (without ns i) ≡ sum ns
sum-without [] i n h = cc
sum-without (m ∷ ns) zero n h = ground arith
sum-without (m ∷ ns) (suc i) n h = omega (arith, sum-without ns i n h)

-- A turn that reserves does so within the bound, and on the value that the cell still has.
turn-reserved :
    (most bytes current pending amount : ℕ)
    → try_reserve_turn most bytes current pending ≡ reserved amount
    → (amount ≡ pending + bytes) × (amount ≤ most)
unfolding try_reserve_turn
turn-reserved most bytes current pending amount h = (ground arith, ground arith)

module _ (most : ℕ) where
  released :
      (pending : ℕ) (b : Budget) (i bytes : ℕ)
      → (pending ≡ sum b.granted) × (pending ≤ most)
      → bytes + sum (without b.granted i) ≡ sum b.granted
      → (release bytes pending ≡ sum (without b.granted i)) × (release bytes pending ≤ most)
  unfolding release
  released pending b i bytes (exact, bound) whole = (omega arith, omega arith)

  after_turn-exact :
      (b : Budget) (bytes current : ℕ) (t : Turn)
      → try_reserve_turn most bytes current b.pending ≡ t
      → b.pending ≡ sum b.granted
      → b.pending ≤ most
      → ((after_turn bytes t b).pending ≡ sum (after_turn bytes t b).granted)
        × ((after_turn bytes t b).pending ≤ most)
  after_turn-exact b bytes current refused e exact bound = (exact, bound)
  after_turn-exact b bytes current retry e exact bound = (exact, bound)
  after_turn-exact b bytes current (reserved amount) e exact bound =
      let (grown, within) = turn-reserved most bytes current b.pending amount e in
      (omega arith, within)

  -- In each interleaving of turns of `try_reserve` and of releases, the cell holds the sum of the
  -- reservations that are granted and not released, and never more than the maximum.
  pub Reach-exact : {b : Budget} → Reach most b → (b.pending ≡ sum b.granted) × (b.pending ≤ most)
  Reach-exact here = (refl, ground arith)
  Reach-exact (next r (turn b bytes current)) =
      let (exact, bound) = Reach-exact r in after_turn-exact b bytes current _ refl exact bound
  Reach-exact (next r (release_granted b i bytes at)) =
      released b.pending b i bytes (Reach-exact r) (sum-without b.granted i bytes at)

-- A turn that loads the value the cell still has does not try again: it reserves exactly where the
-- sum fits under the maximum and in 64 bits, and else it refuses.
pub try_reserve_turn_alone :
    (most bytes pending : ℕ)
    → try_reserve_turn most bytes pending pending
      ≡ (if leb (pending + bytes) (min most u64_max) then reserved (pending + bytes) else refused)
unfolding try_reserve_turn
try_reserve_turn_alone most bytes pending = ground arith
