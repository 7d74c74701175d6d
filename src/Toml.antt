-- ===== src/Toml.antt =====
-- The parts of toml++ that the program uses, as an interface: `lookup` is `table[key]`, `value_…`
-- is `value<T>()` (none where the node is not of that type), `entries` is the iteration over a
-- table, and `parse` is `toml::parse`, none where it throws.
use mathlib.Core.List.{[], ◌∷◌}
use spio.Prelude.{
  ℕ, Bytes, ◌==◌, Bool, false, Option, none, some, List, Result, ok, ◌>>=◌, or_throw,
  validation_error, has_value,
}

-- `negsuc n` is -(n + 1).
pub data ℤ : Type 0 where
  pos : ℕ → ℤ
  negsuc : ℕ → ℤ

pub record Toml : Type 1 where
  pub Table : Type 0
  pub Node : Type 0
  pub lookup : Bytes → Table → Option Node
  pub as_table : Node → Option Table
  pub as_array : Node → Option (List Node)
  pub value_string : Node → Option Bytes
  pub value_bool : Node → Option Bool
  pub value_int : Node → Option ℤ
  pub entries : Table → List (Bytes × Node)
  pub parse : Bytes → Option Table

-- `m.as_…()` on a node that may be missing
abbrev pub and_then {ℓ} : {A B : Type ℓ} → Option A → (A → Option B) → Option B
and_then none f = none
and_then (some a) f = f a

-- `value.has_value() && *value == 1`
unfoldable pub is_one : Option ℤ → Bool
is_one (some (pos n)) = n == 1
is_one (some (negsuc n)) = false
is_one none = false

module _ (toml : Toml) where
  open toml use {Table, Node, lookup, as_table, as_array, value_string, value_bool, value_int}

  abbrev pub table_at : Table → Bytes → Option Table
  table_at t key = and_then (lookup key t) as_table

  abbrev pub array_at : Table → Bytes → Option (List Node)
  array_at t key = and_then (lookup key t) as_array

  -- `OptionalString`
  abbrev pub optional_string : Table → Bytes → Option Bytes
  optional_string t key = and_then (lookup key t) value_string

  -- `OptionalBool`
  abbrev pub optional_bool : Table → Bytes → Option Bool
  optional_bool t key = and_then (lookup key t) value_bool

  abbrev pub int_at : Table → Bytes → Option ℤ
  int_at t key = and_then (lookup key t) value_int

  -- `RequireValue<std::string>`
  abbrev pub require_string : Table → Bytes → Result Bytes
  require_string t key = or_throw (optional_string t key) validation_error

  -- the loop of `ParseStringArray` and `RequireStringArray`
  unfoldable pub strings_of : List Node → Result (List Bytes)
  strings_of [] = ok []
  strings_of (n ∷ ns) = do
    s ← or_throw (value_string n) validation_error
    rest ← strings_of ns
    ok (s ∷ rest)

  abbrev pub parse_string_array : Table → Bytes → Result (List Bytes)
  parse_string_array t key = do nodes ← or_throw (array_at t key) validation_error; strings_of nodes

  -- `table.contains(key)`
  abbrev pub has_key : Table → Bytes → Bool
  has_key t key = has_value (lookup key t)
