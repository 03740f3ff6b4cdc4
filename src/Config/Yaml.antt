-- ===== src/Config/Yaml.antt =====
-- The values that `yaml.safe_load` gives (null, Booleans, numbers, texts, lists and mappings), and
-- what Python's conversions make of them. The conversions of a text to a number, of a float to an
-- integer and of other values to a text are parameters.
use Prim.Native.String.{String}
use text.Mathlib.Text.{◌==◌ as str_eq}
use sparq_control.Common.{
  zero, Bool, true, false, not, List, [], ◌∷◌, Option, none, some, ℤ, pos, if◌then◌else◌,
}
use sparq_control.Common.Floats.{Floats}
use sparq_control.Common.Result.{Result, ok, err, Exn, type_error}

-- A mapping keeps its entries in order; a key is any value.
mutual
  pub data Yaml (F : Type 0) : Type 0 where
    null_value : Yaml F
    bool_value : Bool → Yaml F
    int_value : ℤ → Yaml F
    float_value : F → Yaml F
    text_value : String → Yaml F
    list_value : Items F → Yaml F
    mapping_value : Entries F → Yaml F

  pub data Items (F : Type 0) : Type 0 where
    no_items : Items F
    item : Yaml F → Items F → Items F

  pub data Entries (F : Type 0) : Type 0 where
    no_entries : Entries F
    entry : Yaml F → Yaml F → Entries F → Entries F

-- What a Python list of the document holds.
abbrev pub items : {F : Type 0} → Items F → List (Yaml F)
items no_items = []
items (item v vs) = v ∷ items vs

-- `dict.items()`
abbrev pub entries : {F : Type 0} → Entries F → List (Yaml F × Yaml F)
entries no_entries = []
entries (entry k v es) = (k, v) ∷ entries es

-- `key == name` for a key of a mapping and a text.
abbrev pub is_key : {F : Type 0} → String → Yaml F → Bool
is_key name (text_value s) = str_eq s name
is_key name _ = false

-- `mapping[key]`, where `none` says that `key not in mapping`.
unfoldable pub lookup : {F : Type 0} → String → Entries F → Option (Yaml F)
lookup key no_entries = none
lookup key (entry k v es) = if is_key key k then some v else lookup key es

abbrev pub is_empty_text : String → Bool
is_empty_text s = str_eq s ""

-- Python's built-in conversions where this model does not compute them.
pub record Builtins (fl : Floats) : Type 0 where
  -- `int(s)` and `int(s, 0)`
  pub int_of_text : String → Result ℤ
  pub int0_of_text : String → Result ℤ
  -- `float(s)`
  pub float_of_text : String → Result fl.F
  -- `int(x)` of a float, which raises for infinities
  pub int_of_float : fl.F → Result ℤ
  -- `str(v)` of a value that is not a text
  pub str_of : Yaml fl.F → String

module _ (fl : Floats) (b : Builtins fl) where
  -- `str(v)`
  unfoldable pub to_str : Yaml fl.F → String
  to_str (text_value s) = s
  to_str v = b.str_of v

  -- `int(v)`
  unfoldable pub to_int : Yaml fl.F → Result ℤ
  to_int (bool_value true) = ok (pos 1)
  to_int (bool_value false) = ok (pos 0)
  to_int (int_value n) = ok n
  to_int (float_value x) = b.int_of_float x
  to_int (text_value s) = b.int_of_text s
  to_int _ = err type_error

  -- `int(v, 0) if isinstance(v, str) else int(v)`
  unfoldable pub parse_int : Yaml fl.F → Result ℤ
  unfolding to_int
  parse_int (text_value s) = b.int0_of_text s
  parse_int v = to_int v

  -- `float(v)`
  unfoldable pub to_float : Yaml fl.F → Result fl.F
  to_float (bool_value true) = ok (fl.of_int (pos 1))
  to_float (bool_value false) = ok (fl.of_int (pos 0))
  to_float (int_value n) = ok (fl.of_int n)
  to_float (float_value x) = ok x
  to_float (text_value s) = b.float_of_text s
  to_float _ = err type_error

  -- `bool(v)`
  unfoldable pub to_bool : Yaml fl.F → Bool
  to_bool null_value = false
  to_bool (bool_value p) = p
  to_bool (int_value (pos zero)) = false
  to_bool (int_value _) = true
  to_bool (float_value x) = not (fl.is_zero x)
  to_bool (text_value s) = not (is_empty_text s)
  to_bool (list_value no_items) = false
  to_bool (list_value _) = true
  to_bool (mapping_value no_entries) = false
  to_bool (mapping_value _) = true

-- The helpers that both loaders have, with the exception that each raises.
module _ {F : Type 0} (wrong : Exn) where
  -- `if key not in mapping: raise ...`, then `mapping[key]`
  unfoldable pub find_key : Entries F → String → Result (Yaml F)
  unfolding lookup
  find_key m key = elim (lookup key m) [ none ↦ err wrong | some v ↦ ok v ]

  abbrev pub as_mapping : Yaml F → Result (Entries F)
  as_mapping (mapping_value es) = ok es
  as_mapping _ = err wrong

  abbrev pub as_list : Yaml F → Result (List (Yaml F))
  as_list (list_value vs) = ok (items vs)
  as_list _ = err wrong

  abbrev pub as_bool : Yaml F → Result Bool
  as_bool (bool_value p) = ok p
  as_bool _ = err wrong
