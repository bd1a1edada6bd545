-- ===== src/Json/Value.antt =====
-- `serde_json::Value` as the program uses it: the constructors, `get`, the `as_*` readers, and the
-- updates of an object. `serde_json` keeps the keys of an object sorted: the order of `Fields` is
-- the model's own, and the theorems read an object through `field`.
use llm_universal_proxy.Prelude.{
  ℕ, String, Bool, true, false, Option, none, some, List, [], ◌∷◌, str_eq, if◌then◌else◌,
}

-- `serde_json::Number`: a `u64`, a negative `i64`, or a float, of which the program reads the text.
pub data Number : Type 0 where
  pos_int neg_int : ℕ → Number
  float : String → Number

mutual
  pub data Value : Type 0 where
    null : Value
    bool : Bool → Value
    number : Number → Value
    string : String → Value
    array : Items → Value
    object : Fields → Value

  pub data Items : Type 0 where
    nil : Items
    cons : Value → Items → Items

  pub data Fields : Type 0 where
    end : Fields
    entry : String → Value → Fields → Fields

-- `Map::get`
unfoldable pub field : String → Fields → Option Value
field k end = none
field k (entry j v o) = if str_eq j k then some v else field k o

-- `Map::remove`
unfoldable pub remove : String → Fields → Fields
remove k end = end
remove k (entry j v o) = let rest = remove k o in if str_eq j k then rest else entry j v rest

-- `Map::insert`
unfoldable pub insert : String → Value → Fields → Fields
unfolding remove
insert k v o = entry k v (remove k o)

-- `Value::get` with a key: a value that is no object has no fields.
unfoldable pub get : Value → String → Option Value
unfolding field
get (object o) k = field k o
get (null) k = none
get (bool _) k = none
get (number _) k = none
get (string _) k = none
get (array _) k = none

abbrev pub as_str : Value → Option String
as_str (string s) = some s
as_str _ = none

abbrev pub as_u64 : Value → Option ℕ
as_u64 (number (pos_int n)) = some n
as_u64 _ = none

abbrev pub items : Items → List Value
items nil = []
items (cons v vs) = v ∷ items vs

abbrev pub as_array : Value → Option (List Value)
as_array (array vs) = some (items vs)
as_array _ = none

abbrev pub as_object : Value → Option Fields
as_object (object o) = some o
as_object _ = none

abbrev pub is_array : Value → Bool
is_array (array _) = true
is_array _ = false

abbrev pub is_string : Value → Bool
is_string (string _) = true
is_string _ = false
