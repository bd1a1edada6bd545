-- ===== src/Bridge.antt =====
-- src/server/conversation_state_bridge.rs: responses that are kept, for a time and within a budget,
-- so that a client may go on from one by its id. The mutex makes each operation one step; `now` is
-- the instant that it reads, and a response's `expires_at` is an instant too.
-- `serde_json::to_vec` is a parameter: it gives the length of the bytes, or an error's text.
pub mod Invariant
pub mod Operations
pub mod Access
pub mod Storing
use llm_universal_proxy.Prelude.{
  ℕ, ◌+◌, ◌-◌, String, Bool, true, false, not, ◌||◌, Option, none, some, List, [], ◌∷◌, Result, ok,
  err, leb, ltb, saturating_add, str_eq, concat, len, is_some, and_then, ◌>>=◌, ◌>>◌, if◌then◌else◌,
}
use llm_universal_proxy.Prelude.Map
use llm_universal_proxy.Prelude.Map.{Map}
use llm_universal_proxy.Json.Value.{Value}
use llm_universal_proxy.Formats.{UpstreamFormat, display}
use llm_universal_proxy.ModelSurface.{ModelSurface}
use llm_universal_proxy.Routing.{ResolvedModel}

pub record BridgeRouteConfigFingerprint : Type 0 where
  pub schema_version : ℕ
  pub namespace_revision : String
  pub resolved_model : ResolvedModel
  pub upstream_format : UpstreamFormat
  pub translation_surface : ModelSurface

pub record StoredBridgeResponse : Type 0 where
  pub namespace : String
  pub owner_hash : String
  pub client_model : String
  pub resolved_model : ResolvedModel
  pub route_config_fingerprint : BridgeRouteConfigFingerprint
  pub transcript_items : List Value
  pub expires_at : ℕ
  pub size_bytes : ℕ

pub data BridgeLookupError : Type 0 where
  unknown expired owner_mismatch : BridgeLookupError

-- The messages of `put_with_id`.
pub data PutError : Type 0 where
  serialize_failed : String → PutError
  entry_too_large : ℕ → ℕ → PutError
  id_exists : String → PutError
  memory_limit : ℕ → PutError

-- `StoreInner`
pub record Store : Type 0 where
  pub responses : Map StoredBridgeResponse
  pub current_bytes : ℕ

unfoldable pub new : Store
new = record { responses = []; current_bytes = 0 }

-- `to_vec(…).map(len)` for a transcript and for a model surface.
pub record Serializer : Type 0 where
  pub transcript_len : List Value → Result String ℕ
  pub surface_len : ModelSurface → Result String ℕ

abbrev pub or_serialize_failed : Result String ℕ → Result PutError ℕ
or_serialize_failed (ok n) = ok n
or_serialize_failed (err e) = err (serialize_failed e)

-- `size_of_val` of the `u64` schema version is 8.
unfoldable pub estimate_entry_size : Serializer → StoredBridgeResponse → Result PutError ℕ
estimate_entry_size s e = do
  transcript ← or_serialize_failed (s.transcript_len e.transcript_items)
  surface ← or_serialize_failed (s.surface_len e.route_config_fingerprint.translation_surface)
  ok (
      transcript
      + surface
      + 8
      + len e.namespace
      + len e.owner_hash
      + len e.client_model
      + len e.resolved_model.upstream_name
      + len e.resolved_model.upstream_model
      + len e.route_config_fingerprint.namespace_revision
      + len e.route_config_fingerprint.resolved_model.upstream_name
      + len e.route_config_fingerprint.resolved_model.upstream_model
      + len (display e.route_config_fingerprint.upstream_format))

-- `if let Some(removed) = inner.responses.remove(id) { current_bytes -= removed.size_bytes }`
drop_removed : String → Store → Option StoredBridgeResponse → Store
drop_removed id s none = s
drop_removed id s (some removed) = record {
  responses = Map.remove id s.responses;
  current_bytes = s.current_bytes - removed.size_bytes;
}

pub drop_entry : String → Store → Store
unfolding drop_removed
drop_entry id s = drop_removed id s (Map.get id s.responses)

abbrev pub is_expired : ℕ → StoredBridgeResponse → Bool
is_expired now e = leb e.expires_at now

expired_ids : ℕ → Map StoredBridgeResponse → List String
expired_ids now [] = []
expired_ids now ((id, e) ∷ rest) =
    let ids = expired_ids now rest in if is_expired now e then id ∷ ids else ids

drop_all : List String → Store → Store
drop_all [] s = s
drop_all (id ∷ ids) s = drop_all ids (drop_entry id s)

unfoldable pub prune_expired : ℕ → Store → Store
unfolding drop_all expired_ids drop_entry
prune_expired now s = drop_all (expired_ids now s.responses) s

-- What `get` does with the entry that it found.
get_found :
    ℕ
    → String
    → String
    → String
    → Store
    → Option StoredBridgeResponse
    → Store × Result BridgeLookupError StoredBridgeResponse
get_found now id namespace owner_hash s none = (s, err unknown)
get_found now id namespace owner_hash s (some e) =
    if is_expired now e
    then (drop_entry id s, err expired)
    else if not (str_eq e.namespace namespace) || not (str_eq e.owner_hash owner_hash)
    then (s, err owner_mismatch)
    else (s, ok e)

unfoldable pub get :
    ℕ → String → String → String → Store → Store × Result BridgeLookupError StoredBridgeResponse
unfolding get_found drop_entry
get now response_id namespace owner_hash s =
    get_found now response_id namespace owner_hash s (Map.get response_id s.responses)

-- What `put_with_id` does under the lock, with the size and the expiry of the entry filled in.
insert_entry : ℕ → String → StoredBridgeResponse → ℕ → Store → Store × Result PutError String
insert_entry now id e max_bytes s₀ =
    let s = prune_expired now s₀ in
    if is_some (Map.get id s.responses)
    then (s, err (id_exists id))
    else if ltb max_bytes (saturating_add s.current_bytes e.size_bytes)
    then (s, err (memory_limit max_bytes))
    else (
      record {
        responses = Map.insert id e s.responses;
        current_bytes = s.current_bytes + e.size_bytes;
      },
      ok id,
    )

put_sized :
    ℕ
    → String
    → StoredBridgeResponse
    → ℕ
    → Store
    → Result PutError ℕ
    → Store × Result PutError String
unfolding insert_entry
put_sized now id e max_bytes s (err x) = (s, err x)
put_sized now id e max_bytes s (ok size) =
    if ltb max_bytes size
    then (s, err (entry_too_large size max_bytes))
    else insert_entry now id (record e { size_bytes = size }) max_bytes s

unfoldable pub put_with_id :
    Serializer → ℕ → String → StoredBridgeResponse → ℕ → ℕ → Store → Store × Result PutError String
unfolding put_sized
put_with_id z now id entry ttl max_bytes s =
    let e = record entry { expires_at = now + ttl } in
    put_sized now id e max_bytes s (estimate_entry_size z e)

-- `mint_response_id`, of the random part, and `put`.
unfoldable pub mint_response_id : String → String
mint_response_id uuid = concat "resp_llmup_" uuid

unfoldable pub put :
    Serializer → ℕ → String → StoredBridgeResponse → ℕ → ℕ → Store → Store × Result PutError String
unfolding put_with_id
put z now uuid entry ttl max_bytes s =
    put_with_id z now (mint_response_id uuid) entry ttl max_bytes s
