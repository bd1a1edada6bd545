-- ===== src/Tests/Kept.antt =====
-- Kept responses: src/server/conversation_state_bridge.rs.
use llm_universal_proxy.Prelude.{
  ℕ, ◌≡◌, ◌≤◌, ◌<◌, refl, String, none, some, [], ◌∷◌, ok, err, arith, List,
}
use llm_universal_proxy.Prelude.Map
use llm_universal_proxy.Formats.{open_ai_responses, display}
use llm_universal_proxy.Bridge.{
  StoredBridgeResponse, Store, Serializer, new, get, put_with_id, prune_expired,
  estimate_entry_size, id_exists,
}
use llm_universal_proxy.Bridge.Invariant.{IsValid, new-IsValid, sizes, get-prune_expired, live}
use llm_universal_proxy.Bridge.Operations.{Request, lookup, store, serve, serve_bounded}
use llm_universal_proxy.Bridge.Access.{get-ok}
use llm_universal_proxy.Bridge.Storing.{Adds, put_with_id-ok, get-put_with_id, stamped}

-- A serializer that gives each value 100 bytes.
abbrev hundred : Serializer
hundred = record { transcript_len = λ _. ok 100; surface_len = λ _. ok 100 }

abbrev entry_of : String → StoredBridgeResponse
entry_of owner = record {
  namespace = "default";
  owner_hash = owner;
  client_model = "m";
  resolved_model = record { upstream_name = "u"; upstream_model = "m" };
  route_config_fingerprint = record {
    schema_version = 1;
    namespace_revision = "r1";
    resolved_model = record { upstream_name = "u"; upstream_model = "m" };
    upstream_format = open_ai_responses;
    translation_surface = record { limits = none; modalities = none; tools = none };
  };
  transcript_items = [];
  expires_at = 0;
  size_bytes = 0;
}

abbrev kept : StoredBridgeResponse
kept = record (entry_of "alice") { expires_at = 70; size_bytes = 243 }

abbrev first_id : String
first_id = "resp_1"

abbrev one_kept : Store
one_kept = record { responses = ("resp_1", kept) ∷ []; current_bytes = 243 }

one_kept-IsValid : IsValid one_kept
one_kept-IsValid = record { unique = (unfold Map.get in refl, tt); counted = refl }

stored : put_with_id hundred 10 "resp_1" (entry_of "alice") 60 1000 new ≡ (one_kept, ok "resp_1")
unfolding put_with_id estimate_entry_size prune_expired new display Map.get Map.insert Map.remove
stored = refl

put_with_id-ok_example :
    (size : ℕ) × (estimate_entry_size hundred
        (stamped hundred 10 1000 "resp_1" (entry_of "alice") 60 new new-IsValid)
      ≡ ok size)
    × (first_id ≡ "resp_1")
    × (live 10 (Map.get "resp_1" new.responses) ≡ none)
    × Adds 10 "resp_1"
        (record (stamped hundred 10 1000 "resp_1" (entry_of "alice") 60 new new-IsValid) {
          size_bytes = size;
        })
        new
        one_kept
put_with_id-ok_example =
    put_with_id-ok hundred 10 1000 "resp_1" (entry_of "alice") 60 new new-IsValid one_kept "resp_1"
      stored

get-put_with_id_example :
    (size : ℕ) × ((get 69 "resp_1" "default" "alice" one_kept).1
      ≡ ok (record (entry_of "alice") { expires_at = 70; size_bytes = size }))
get-put_with_id_example =
    get-put_with_id hundred 10 1000 "resp_1" (entry_of "alice") 60 new new-IsValid one_kept "resp_1"
      69 stored (omega arith)

stored_again :
    put_with_id hundred 20 "resp_1" (entry_of "bob") 60 1000 one_kept
    ≡ (one_kept, err (id_exists "resp_1"))
unfolding put_with_id estimate_entry_size prune_expired display Map.get
stored_again = refl

found : get 69 "resp_1" "default" "alice" one_kept ≡ (one_kept, ok kept)
unfolding get Map.get
found = refl

get-ok_example :
    (Map.get "resp_1" one_kept.responses ≡ some kept)
    × (kept.namespace ≡ "default")
    × (kept.owner_hash ≡ "alice")
    × (69 < kept.expires_at)
    × (one_kept ≡ one_kept)
get-ok_example = get-ok 69 "resp_1" "default" "alice" one_kept one_kept kept found

in_store : Map.get "resp_1" one_kept.responses ≡ some kept
unfolding Map.get
in_store = refl

get-prune_expired_example :
    Map.get "resp_1" (prune_expired 70 one_kept).responses
    ≡ live 70 (Map.get "resp_1" one_kept.responses)
get-prune_expired_example = get-prune_expired 70 "resp_1" one_kept one_kept-IsValid

abbrev run : List Request
run =
    store 10 "resp_1" (entry_of "alice") 60
    ∷ lookup 20 "resp_1" "default" "bob"
    ∷ store 80 "resp_2" (entry_of "bob") 60
    ∷ []

serve_bounded_example :
    ((serve hundred 1000 new run).current_bytes ≡ sizes (serve hundred 1000 new run).responses)
    × (sizes (serve hundred 1000 new run).responses ≤ 1000)
serve_bounded_example = serve_bounded hundred 1000 run (omega arith)
