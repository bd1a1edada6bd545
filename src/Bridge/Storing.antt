-- ===== src/Bridge/Storing.antt =====
-- Storing: what is kept after a success and after an error.
use llm_universal_proxy.Prelude.{
  ℕ, ◌+◌, ◌<◌, ◌≡◌, refl, sym, ap, subst, ◌∙◌, String, Option, none, some, Result, ok, err, ltb,
  saturating_add, str_eq, eq_refl, arith, Bool-cases, Option-cases, inl, inr, if◌then◌else◌,
}
use llm_universal_proxy.Prelude.Map
use llm_universal_proxy.Prelude.Map.{get-insert}
use llm_universal_proxy.Bridge.{
  StoredBridgeResponse, Store, prune_expired, insert_entry, put_sized, put_with_id, PutError, get,
  estimate_entry_size, Serializer,
}
use llm_universal_proxy.Bridge.Invariant.{IsValid, live, get-prune_expired}
use llm_universal_proxy.Bridge.Access.{get_live}

-- The store holds `e` under `id`, and else what had not expired in the store before.
abbrev pub Adds : ℕ → String → StoredBridgeResponse → Store → Store → Type 0
Adds now id e s s' =
    (j : String)
    → Map.get j s'.responses ≡ (if str_eq id j then some e else live now (Map.get j s.responses))

-- The store holds what had not expired before, or all that it held before.
abbrev pub Retains : ℕ → Store → Store → Type 0
Retains now s s' =
    (j : String) → live now (Map.get j s'.responses) ≡ live now (Map.get j s.responses)

live-live : (now : ℕ) (o : Option StoredBridgeResponse) → live now (live now o) ≡ live now o
live-live now none = refl
live-live now (some e) = ground arith

module _ (now b : ℕ) (id : String) (s : Store) (v : IsValid s) where
  Retains-prune : Retains now s (prune_expired now s)
  Retains-prune j = rw (get-prune_expired now j s v) (live-live now _)

  retained : (s' : Store) → prune_expired now s ≡ s' → Retains now s s'
  retained s' e = subst (Retains now s) e Retains-prune

  insert_entry-ok :
      (e : StoredBridgeResponse) (s' : Store) (id' : String)
      → insert_entry now id e b s ≡ (s', ok id')
      → (id' ≡ id) × (live now (Map.get id s.responses) ≡ none) × Adds now id e s s'
  unfolding insert_entry
  insert_entry-ok e s' id' h =
      let p = prune_expired now s in
      elim (Option-cases (Map.get id p.responses)) [
        | inr (r, found) ↦ cc (rw found at h)
        | inl absent ↦ elim (Bool-cases (ltb b (saturating_add p.current_bytes e.size_bytes))) [
          | inl full ↦ cc (rw (absent, full) at h)
          | inr free ↦
              let e₁ = rw (absent, free) at h in
              (
                cc (ap (λ (r : Store × Result PutError String). r.1) e₁),
                sym (get-prune_expired now id s v) ∙ absent,
                λ j.
                    subst
                      (λ t.
                        Map.get j t.responses
                        ≡ (if str_eq id j then some e else live now (Map.get j s.responses)))
                      (ap (λ (r : Store × Result PutError String). r.0) e₁)
                      (get-insert id j e p.responses
                        ∙ ap (λ o. if str_eq id j then some e else o)
                            (get-prune_expired now j s v)),
              )
        ]
      ]

  insert_entry-err :
      (e : StoredBridgeResponse) (s' : Store) (x : PutError)
      → insert_entry now id e b s ≡ (s', err x)
      → Retains now s s'
  unfolding insert_entry
  insert_entry-err e s' x h =
      let p = prune_expired now s in
      elim (Option-cases (Map.get id p.responses)) [
        | inr (r, found) ↦
            retained s' (ap (λ (r : Store × Result PutError String). r.0) (rw found at h))
        | inl absent ↦ elim (Bool-cases (ltb b (saturating_add p.current_bytes e.size_bytes))) [
          | inl full ↦
              retained s'
                (ap (λ (r : Store × Result PutError String). r.0) (rw (absent, full) at h))
          | inr free ↦ cc (rw (absent, free) at h)
        ]
      ]

module _ (z : Serializer) (now b : ℕ) (id : String) (entry : StoredBridgeResponse) (ttl : ℕ)
    (s : Store) (v : IsValid s) where
  abbrev pub stamped : StoredBridgeResponse
  stamped = record entry { expires_at = now + ttl }

  -- From a valid state, a store that succeeds answers the id, which no unexpired entry had; the
  -- entry is kept under it with its size and its expiry, and of the other ids just what had not
  -- expired.
  pub put_with_id-ok :
      (s' : Store) (id' : String)
      → put_with_id z now id entry ttl b s ≡ (s', ok id')
      → (size : ℕ) × (estimate_entry_size z stamped ≡ ok size)
        × (id' ≡ id)
        × (live now (Map.get id s.responses) ≡ none)
        × Adds now id (record stamped { size_bytes = size }) s s'
  unfolding put_with_id put_sized
  put_with_id-ok s' id' h = sized (estimate_entry_size z stamped) refl h
    where
      sized :
          (r : Result PutError ℕ)
          → estimate_entry_size z stamped ≡ r
          → put_sized now id stamped b s r ≡ (s', ok id')
          → (size : ℕ) × (estimate_entry_size z stamped ≡ ok size)
            × (id' ≡ id)
            × (live now (Map.get id s.responses) ≡ none)
            × Adds now id (record stamped { size_bytes = size }) s s'
      sized (err x) e h = cc
      sized (ok size) e h = elim (Bool-cases (ltb b size)) [
        | inl large ↦ cc (rw large at h)
        | inr fits ↦
            let (same, free, adds) =
              insert_entry-ok now b id s v (record stamped { size_bytes = size }) s' id'
                (rw fits at h) in
            (size, e, same, free, adds)
      ]

  -- From a valid state, a store that fails loses nothing but what had expired.
  pub put_with_id-err :
      (s' : Store) (x : PutError)
      → put_with_id z now id entry ttl b s ≡ (s', err x)
      → Retains now s s'
  unfolding put_with_id put_sized
  put_with_id-err s' x h = sized (estimate_entry_size z stamped) h
    where
      same : s ≡ s' → Retains now s s'
      same e j = rw e

      sized :
          (r : Result PutError ℕ) → put_sized now id stamped b s r ≡ (s', err x) → Retains now s s'
      sized (err y) h = same (ap (λ (r : Store × Result PutError String). r.0) h)
      sized (ok size) h = elim (Bool-cases (ltb b size)) [
        | inl large ↦ same (ap (λ (r : Store × Result PutError String). r.0) (rw large at h))
        | inr fits ↦
            insert_entry-err now b id s v (record stamped { size_bytes = size }) s' x (rw fits at h)
      ]

  -- What was stored into a valid state is what its owner gets, with its size filled in, until it
  -- expires.
  pub get-put_with_id :
      (s' : Store) (id' : String) (later : ℕ)
      → put_with_id z now id entry ttl b s ≡ (s', ok id')
      → later < now + ttl
      → (size : ℕ) × ((get later id' entry.namespace entry.owner_hash s').1
          ≡ ok (record stamped { size_bytes = size }))
  get-put_with_id s' id' later h t =
      let (size, measured, same, free, adds) = put_with_id-ok s' id' h in
      (
        size,
        get_live later id' entry.namespace entry.owner_hash s'
            (record stamped { size_bytes = size }) (rw same (adds id ∙ rw eq_refl)) t refl refl,
      )
