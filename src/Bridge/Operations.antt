-- ===== src/Bridge/Operations.antt =====
-- Each operation keeps the invariant and the budget, and so do any operations in any order.
use llm_universal_proxy.Prelude.{
  ℕ, ◌+◌, ◌≤◌, ◌<◌, ◌≡◌, String, false, none, List, [], ◌∷◌, Result, ok, err, ltb, saturating_add,
  u64_max, arith, Bool-cases, Option-cases, inl, inr,
}
use llm_universal_proxy.Prelude.Map
use llm_universal_proxy.Prelude.Map.{insert-IsUnique, remove-absent}
use llm_universal_proxy.Bridge.{
  StoredBridgeResponse, Store, new, drop_entry, prune_expired, get_found, get, insert_entry,
  put_sized, put_with_id, PutError, estimate_entry_size, Serializer,
}
use llm_universal_proxy.Bridge.Invariant.{
  IsValid, new-IsValid, drop_entry-IsValid, bytes-drop_entry, prune_expired-IsValid,
  bytes-prune_expired, sizes,
}

-- The invariant, and the budget of the store.
pub record IsWithin (max_bytes : ℕ) (s : Store) : Type 0 where
  pub valid : IsValid s
  pub bounded : s.current_bytes ≤ max_bytes

drop_entry-IsWithin :
    (b : ℕ) (id : String) (s : Store) → IsWithin b s → IsWithin b (drop_entry id s)
drop_entry-IsWithin b id s w = record {
  valid = drop_entry-IsValid id s w.valid;
  bounded = omega (arith, bytes-drop_entry id s, w.bounded);
}

prune_expired-IsWithin : (b now : ℕ) (s : Store) → IsWithin b s → IsWithin b (prune_expired now s)
prune_expired-IsWithin b now s w = record {
  valid = prune_expired-IsValid now s w.valid;
  bounded = omega (arith, bytes-prune_expired now s, w.bounded);
}

-- A lookup, whatever it answers, keeps the invariant and the budget.
pub get-IsWithin :
    (b now : ℕ) (id namespace owner : String) (s : Store)
    → IsWithin b s
    → IsWithin b (get now id namespace owner s).0
unfolding get_found get
get-IsWithin b now id namespace owner s w = ground (arith, drop_entry-IsWithin b id s w)

-- The entry is added to a pruned store that has no such id.
add_entry-IsWithin :
    (b : ℕ) (id : String) (e : StoredBridgeResponse) (s : Store)
    → IsWithin b s
    → Map.get id s.responses ≡ none
    → s.current_bytes + e.size_bytes ≤ b
    → IsWithin b (record {
      responses = Map.insert id e s.responses;
      current_bytes = s.current_bytes + e.size_bytes;
    })
unfolding Map.insert
add_entry-IsWithin b id e s w absent fits = record {
  valid = record {
    unique = insert-IsUnique id e s.responses w.valid.unique;
    counted = rw (remove-absent id s.responses absent) (omega (arith, w.valid.counted));
  };
  bounded = fits;
}

room : (a b m : ℕ) → m < u64_max → ltb m (saturating_add a b) ≡ false → a + b ≤ m
room a b m h t = ground arith

insert_entry-IsWithin :
    (b now : ℕ) (id : String) (e : StoredBridgeResponse) (s : Store)
    → b < u64_max
    → IsWithin b s
    → IsWithin b (insert_entry now id e b s).0
unfolding insert_entry
insert_entry-IsWithin b now id e s h w =
    let p = prune_expired now s in
    let wp = prune_expired-IsWithin b now s w in
    elim (Option-cases (Map.get id p.responses)) [
      | inr (r, found) ↦ rw found wp
      | inl absent ↦ elim (Bool-cases (ltb b (saturating_add p.current_bytes e.size_bytes))) [
        | inl full ↦ rw (absent, full) wp
        | inr free ↦
            rw (absent, free)
              (add_entry-IsWithin b id e p wp absent (room p.current_bytes e.size_bytes b h free))
      ]
    ]

-- Storing, whether it succeeds or not, keeps the invariant and the budget.
pub put_with_id-IsWithin :
    (z : Serializer) (b now : ℕ) (id : String) (e : StoredBridgeResponse) (ttl : ℕ) (s : Store)
    → b < u64_max
    → IsWithin b s
    → IsWithin b (put_with_id z now id e ttl b s).0
unfolding put_with_id
put_with_id-IsWithin z b now id e ttl s h w =
    let e' : StoredBridgeResponse = record e { expires_at = now + ttl } in
    sized e' (estimate_entry_size z e')
  where
    sized :
        (e : StoredBridgeResponse) (r : Result PutError ℕ) → IsWithin b (put_sized now id e b s r).0
    sized e (err x) = w
    sized e (ok size) = elim (Bool-cases (ltb b size)) [
      | inl large ↦ rw large w
      | inr fits ↦ rw fits (insert_entry-IsWithin b now id (record e { size_bytes = size }) s h w)
    ]

-- A request of a client: a lookup or a store, at an instant.
pub data Request : Type 0 where
  lookup : ℕ → String → String → String → Request
  store : ℕ → String → StoredBridgeResponse → ℕ → Request

unfoldable pub serve : Serializer → ℕ → Store → List Request → Store
serve z b s [] = s
serve z b s (lookup now id namespace owner ∷ rest) = serve z b (get now id namespace owner s).0 rest
serve z b s (store now id e ttl ∷ rest) = serve z b (put_with_id z now id e ttl b s).0 rest

serve-IsWithin :
    (z : Serializer) (b : ℕ) (s : Store) (rs : List Request)
    → b < u64_max
    → IsWithin b s
    → IsWithin b (serve z b s rs)
unfolding serve
serve-IsWithin z b s [] h w = w
serve-IsWithin z b s (lookup now id namespace owner ∷ rest) h w =
    serve-IsWithin z b (get now id namespace owner s).0 rest h
      (get-IsWithin b now id namespace owner s w)
serve-IsWithin z b s (store now id e ttl ∷ rest) h w =
    serve-IsWithin z b (put_with_id z now id e ttl b s).0 rest h
      (put_with_id-IsWithin z b now id e ttl s h w)

-- After any lookups and stores from the empty store, in any order and at any instants, the byte
-- count is the sum of the sizes of what is kept, and within a budget below the largest `usize`.
pub serve_bounded :
    (z : Serializer) (b : ℕ) (rs : List Request)
    → b < u64_max
    → ((serve z b new rs).current_bytes ≡ sizes (serve z b new rs).responses)
      × (sizes (serve z b new rs).responses ≤ b)
serve_bounded z b rs h =
    let w : IsWithin b (serve z b new rs) =
      serve-IsWithin z b new rs h
        (record { valid = new-IsValid; bounded = unfold new in omega arith }) in
    (w.valid.counted, omega (arith, w.valid.counted, w.bounded))
