-- ===== src/Json/Laws.antt =====
-- What reading an object shows after an update.
use llm_universal_proxy.Prelude.{String, ◌≡◌, none, some, arith, str_eq, eq_iff, if◌then◌else◌}
use llm_universal_proxy.Json.Value.{Value, Fields, end, entry, field, remove, insert}

pub field-remove :
    (k j : String) (o : Fields) → field j (remove k o) ≡ (if str_eq k j then none else field j o)
unfolding field remove
field-remove k j end = ground arith
field-remove k j (entry i v o) =
    ground (arith, eq_iff k j, eq_iff i k, eq_iff i j, field-remove k j o)

pub field-insert :
    (k j : String) (v : Value) (o : Fields)
    → field j (insert k v o) ≡ (if str_eq k j then some v else field j o)
unfolding field insert
field-insert k j v o = ground (arith, field-remove k j o)

pub ruleset json_laws = (field-insert, field-remove)
