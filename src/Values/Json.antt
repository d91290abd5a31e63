-- ===== src/Values/Json.antt =====
-- `serde_json::Value`, with the lookups of the source. A `Map` is its entries; their order is not
-- observed.
use personal_knowledge_os.Prelude.{ℕ, Bool, Option, none, some, if◌then◌else◌}
use personal_knowledge_os.Text.{Text, text_eq}
use personal_knowledge_os.Values.Int.{ℤ}

-- `serde_json::Number`; a float as its 64 bits
pub data Number : Type 0 where
  integer : ℤ → Number
  float : ℕ → Number

mutual
  pub data Value : Type 0 where
    null : Value
    bool : Bool → Value
    number : Number → Value
    string : Text → Value
    array : Items → Value
    object : Fields → Value

  pub data Items : Type 0 where
    nil : Items
    cons : Value → Items → Items

  pub data Fields : Type 0 where
    end : Fields
    field : Text → Value → Fields → Fields

-- `Map::get`
unfoldable pub get_field : Text → Fields → Option Value
get_field k end = none
get_field k (field j v fs) = if text_eq j k then some v else get_field k fs

-- `Map::insert`
unfoldable pub insert_field : Text → Value → Fields → Fields
insert_field k v end = field k v end
insert_field k v (field j w fs) =
    if text_eq j k then field k v fs else field j w (insert_field k v fs)

-- `Value::get(key)`
unfoldable pub get_key : Text → Value → Option Value
unfolding get_field
get_key k (object fs) = get_field k fs
get_key k v = none

-- `Value::as_str`
unfoldable pub as_str : Value → Option Text
as_str (string s) = some s
as_str v = none

-- `Value::as_array`
unfoldable pub as_array : Value → Option Items
as_array (array xs) = some xs
as_array v = none
