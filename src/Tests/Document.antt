-- ===== src/Tests/Document.antt =====
-- A TOML document as a tree, and the interface of toml++ on it.
use spio.Prelude.{ℕ, Bytes, text_eq, Bool, Option, none, some, List, [], ◌∷◌, if◌then◌else◌}
use spio.Toml.{Toml, pos, ℤ}

mutual
  pub data Value : Type 0 where
    string : Bytes → Value
    integer : ℕ → Value
    boolean : Bool → Value
    table : Fields → Value
    array : Values → Value

  pub data Fields : Type 0 where
    end : Fields
    field : Bytes → Value → Fields → Fields

  pub data Values : Type 0 where
    stop : Values
    item : Value → Values → Values

abbrev pub find_field : Bytes → Fields → Option Value
find_field key end = none
find_field key (field k v rest) = if text_eq k key then some v else find_field key rest

abbrev pub list_of : Values → List Value
list_of stop = []
list_of (item v rest) = v ∷ list_of rest

abbrev pub fields_of : Fields → List (Bytes × Value)
fields_of end = []
fields_of (field k v rest) = (k, v) ∷ fields_of rest

abbrev pub table_of : Value → Option Fields
table_of (table t) = some t
table_of v = none

abbrev pub array_of : Value → Option (List Value)
array_of (array vs) = some (list_of vs)
array_of v = none

abbrev pub string_of : Value → Option Bytes
string_of (string s) = some s
string_of v = none

abbrev pub boolean_of : Value → Option Bool
boolean_of (boolean b) = some b
boolean_of v = none

abbrev pub integer_of : Value → Option ℤ
integer_of (integer n) = some (pos n)
integer_of v = none

abbrev pub document_toml : Toml
document_toml = record {
  Table = Fields;
  Node = Value;
  lookup = find_field;
  as_table = table_of;
  as_array = array_of;
  value_string = string_of;
  value_bool = boolean_of;
  value_int = integer_of;
  entries = fields_of;
  parse = λ s. none;
}
