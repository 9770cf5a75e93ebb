-- ===== src/Protocol/Json.antt =====
-- `serde_json::Value`. A number is kept as the crate stores it; a `Map` is its list of entries.
use ling_xi_agent.Prelude.{
  ℕ, String, Bool, true, false, ◌&&◌, Option, none, some, List, [], ◌∷◌, ◌==◌, nat_eq,
  if◌then◌else◌,
}
use ling_xi_agent.Protocol.Float.{F64, f64_eq}

pub data Number : Type 0 where
  pos_int : ℕ → Number  -- u64
  neg_int : ℕ → Number  -- -(n + 1), an i64
  float : F64 → Number

mutual
  pub data Value : Type 0 where
    null : Value
    bool : Bool → Value
    number : Number → Value
    string : String → Value
    array : Items → Value
    object : Fields → Value

  pub data Fields : Type 0 where
    no_fields : Fields
    field : String → Value → Fields → Fields

  pub data Items : Type 0 where
    no_items : Items
    item : Value → Items → Items

abbrev pub object_of : List (String × Value) → Fields
object_of [] = no_fields
object_of ((k, v) ∷ rest) = field k v (object_of rest)

abbrev pub strings : List String → Items
strings [] = no_items
strings (s ∷ rest) = item (string s) (strings rest)

-- `map.get(key)`
unfoldable pub get : String → Fields → Option Value
get key no_fields = none
get key (field k v rest) = if k == key then some v else get key rest

abbrev number_eq : Number → Number → Bool
number_eq (pos_int a) (pos_int b) = nat_eq a b
number_eq (neg_int a) (neg_int b) = nat_eq a b
number_eq (float a) (float b) = f64_eq a b
number_eq _ _ = false

abbrev pub as_str : Value → Option String
as_str (string s) = some s
as_str _ = none

abbrev pub as_u64 : Value → Option ℕ
as_u64 (number (pos_int n)) = some n
as_u64 _ = none

-- The derived `PartialEq`. The entries of a `Map` are sorted by key, so equal maps are equal lists.
unfoldable mutual
  pub value_eq : Value → Value → Bool
  value_eq null null = true
  value_eq (bool true) (bool b) = b
  value_eq (bool false) (bool true) = false
  value_eq (bool false) (bool false) = true
  value_eq (number a) (number b) = number_eq a b
  value_eq (string a) (string b) = a == b
  value_eq (array a) (array b) = items_eq a b
  value_eq (object a) (object b) = fields_eq a b
  value_eq _ _ = false

  pub items_eq : Items → Items → Bool
  items_eq no_items no_items = true
  items_eq (item a as_) (item b bs) = value_eq a b && items_eq as_ bs
  items_eq _ _ = false

  pub fields_eq : Fields → Fields → Bool
  fields_eq no_fields no_fields = true
  fields_eq (field j a as_) (field k b bs) = j == k && value_eq a b && fields_eq as_ bs
  fields_eq _ _ = false
