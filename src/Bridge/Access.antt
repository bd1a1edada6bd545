-- ===== src/Bridge/Access.antt =====
-- Who gets what: a lookup gives an entry to its owner alone and before it expires, and storing
-- neither replaces nor disturbs what is kept.
use llm_universal_proxy.Prelude.{
  ℕ, ◌≤◌, ◌<◌, ◌≡◌, ◌≢◌, String, true, Option, none, some, ok, err, lt→leb-false, eq_iff, eq_refl,
  arith, ◌⊎◌,
}
use llm_universal_proxy.Prelude.Map
use llm_universal_proxy.Prelude.Map.{get-insert}
use llm_universal_proxy.Bridge.{
  StoredBridgeResponse, Store, expired, owner_mismatch, is_expired, get_found, get,
}
use llm_universal_proxy.Bridge.Invariant.{get-drop_entry}

found-ok :
    (now : ℕ) (id namespace owner : String) (s s' : Store) (r : Option StoredBridgeResponse)
    (e : StoredBridgeResponse)
    → get_found now id namespace owner s r ≡ (s', ok e)
    → (r ≡ some e)
      × (e.namespace ≡ namespace)
      × (e.owner_hash ≡ owner)
      × (now < e.expires_at)
      × (s' ≡ s)
unfolding get_found
found-ok now id namespace owner s s' none e h = cc
found-ok now id namespace owner s s' (some r) e h =
    ground (arith, eq_iff r.namespace namespace, eq_iff r.owner_hash owner)

-- An entry that a lookup returns is the one kept under the id, belongs to the namespace and the
-- owner that ask, and has not expired; the store is as before.
pub get-ok :
    (now : ℕ) (id namespace owner : String) (s s' : Store) (e : StoredBridgeResponse)
    → get now id namespace owner s ≡ (s', ok e)
    → (Map.get id s.responses ≡ some e)
      × (e.namespace ≡ namespace)
      × (e.owner_hash ≡ owner)
      × (now < e.expires_at)
      × (s' ≡ s)
unfolding get
get-ok now id namespace owner s s' e h =
    found-ok now id namespace owner s s' (Map.get id s.responses) e h

-- The answer to a lookup of an entry that is kept, and what is kept under its id after it.
module _ (now : ℕ) (id namespace owner : String) (s : Store) (e : StoredBridgeResponse)
    (kept : Map.get id s.responses ≡ some e) where
  -- While an entry lasts, a lookup by its owner and in its namespace returns it.
  pub get_live :
      now < e.expires_at
      → e.namespace ≡ namespace
      → e.owner_hash ≡ owner
      → (get now id namespace owner s).1 ≡ ok e
  unfolding get get_found
  get_live t n o = rw kept (
      ground (
        arith,
        lt→leb-false e.expires_at now t,
        eq_iff e.namespace namespace,
        eq_iff e.owner_hash owner,
      ))

  -- While an entry lasts, a lookup by another owner or in another namespace is refused as an owner
  -- mismatch.
  pub get_foreign :
      now < e.expires_at
      → (e.namespace ≢ namespace) ⊎ (e.owner_hash ≢ owner)
      → (get now id namespace owner s).1 ≡ err owner_mismatch
  unfolding get get_found
  get_foreign t f = rw kept (
      ground (
        arith,
        lt→leb-false e.expires_at now t,
        eq_iff e.namespace namespace,
        eq_iff e.owner_hash owner,
      ))

  -- A lookup of an entry that has expired is answered so, whoever asks, and drops the entry.
  pub get_late :
      e.expires_at ≤ now
      → ((get now id namespace owner s).1 ≡ err expired)
        × (Map.get id (get now id namespace owner s).0.responses ≡ none)
  unfolding get get_found
  get_late t =
      let old : is_expired now e ≡ true = ground arith in
      (rw (kept, old), rw (kept, old, get-drop_entry, eq_refl))
