-- ===== src/Bridge/Invariant.antt =====
-- The store's invariant: an id stands once, and the byte count is the sum of the sizes of what is
-- kept. Under it, what is left after pruning are the entries that have not expired.
use llm_universal_proxy.Prelude.{
  ℕ, ◌≤◌, ◌≡◌, refl, String, Bool, false, Option, none, some, List, [], ◌∷◌, str_eq, eq_iff, any,
  arith, Option-cases, inl, inr, if◌then◌else◌,
}
use llm_universal_proxy.Prelude.Map
use llm_universal_proxy.Prelude.Map.{
  Map, IsUnique, total, total-remove, get-remove, remove-IsUnique, insert-IsUnique, remove-absent,
  get-insert,
}
use llm_universal_proxy.Bridge.{
  StoredBridgeResponse, Store, new, drop_entry, is_expired, expired_ids, drop_all, prune_expired,
}

abbrev pub sizes : Map StoredBridgeResponse → ℕ
sizes = total (λ e. e.size_bytes)

pub record IsValid (s : Store) : Type 0 where
  pub unique : IsUnique s.responses
  pub counted : s.current_bytes ≡ sizes s.responses

pub new-IsValid : IsValid new
unfolding new
new-IsValid = record { unique = tt; counted = refl }

pub drop_entry-IsValid : (id : String) (s : Store) → IsValid s → IsValid (drop_entry id s)
unfolding drop_entry
drop_entry-IsValid id s v = elim (Option-cases (Map.get id s.responses)) [
  | inl e ↦ rw e v
  | inr (r, e) ↦ rw e (record {
    unique = remove-IsUnique id s.responses v.unique;
    counted =
        omega (arith, v.counted, total-remove (λ x. x.size_bytes) id r s.responses v.unique e);
  })
]

-- What a lookup finds after an id was dropped.
pub get-drop_entry :
    (id j : String) (s : Store)
    → Map.get j (drop_entry id s).responses ≡ (if str_eq id j then none else Map.get j s.responses)
unfolding drop_entry
get-drop_entry id j s = elim (Option-cases (Map.get id s.responses)) [
  | inl e ↦ rw e (ground (arith, eq_iff id j))
  | inr (r, e) ↦ rw e (get-remove id j s.responses)
]

drop_all-IsValid : (ids : List String) (s : Store) → IsValid s → IsValid (drop_all ids s)
unfolding drop_all
drop_all-IsValid [] s v = v
drop_all-IsValid (id ∷ ids) s v = drop_all-IsValid ids (drop_entry id s) (drop_entry-IsValid id s v)

pub bytes-drop_entry : (id : String) (s : Store) → (drop_entry id s).current_bytes ≤ s.current_bytes
unfolding drop_entry
bytes-drop_entry id s = ground arith

bytes-drop_all : (ids : List String) (s : Store) → (drop_all ids s).current_bytes ≤ s.current_bytes
unfolding drop_all
bytes-drop_all [] s = omega arith
bytes-drop_all (id ∷ ids) s =
    omega (arith, bytes-drop_entry id s, bytes-drop_all ids (drop_entry id s))

get-drop_all :
    (ids : List String) (j : String) (s : Store)
    → Map.get j (drop_all ids s).responses
      ≡ (if any (λ id. str_eq id j) ids then none else Map.get j s.responses)
unfolding drop_all
get-drop_all [] j s = refl
get-drop_all (id ∷ ids) j s =
    ground (arith, get-drop_all ids j (drop_entry id s), get-drop_entry id j s)

-- The entry of an id, if it has one that has not expired.
abbrev pub live : ℕ → Option StoredBridgeResponse → Option StoredBridgeResponse
live now none = none
live now (some e) = if is_expired now e then none else some e

abbrev expired_entry : ℕ → Option StoredBridgeResponse → Bool
expired_entry now none = false
expired_entry now (some e) = is_expired now e

any-expired_ids :
    (now : ℕ) (j : String) (m : Map StoredBridgeResponse)
    → IsUnique m
    → any (λ id. str_eq id j) (expired_ids now m) ≡ expired_entry now (Map.get j m)
unfolding expired_ids Map.get
any-expired_ids now j [] u = refl
any-expired_ids now j ((id, e) ∷ m) u = ground (arith, eq_iff id j, any-expired_ids now j m u.1)

-- After pruning, an id has its entry exactly if that has not expired.
pub get-prune_expired :
    (now : ℕ) (j : String) (s : Store)
    → IsValid s
    → Map.get j (prune_expired now s).responses ≡ live now (Map.get j s.responses)
unfolding prune_expired
get-prune_expired now j s v = ground (
  arith,
  get-drop_all (expired_ids now s.responses) j s,
  any-expired_ids now j s.responses v.unique,
)

pub prune_expired-IsValid : (now : ℕ) (s : Store) → IsValid s → IsValid (prune_expired now s)
unfolding prune_expired
prune_expired-IsValid now s = drop_all-IsValid (expired_ids now s.responses) s

pub bytes-prune_expired :
    (now : ℕ) (s : Store) → (prune_expired now s).current_bytes ≤ s.current_bytes
unfolding prune_expired
bytes-prune_expired now s = bytes-drop_all (expired_ids now s.responses) s
