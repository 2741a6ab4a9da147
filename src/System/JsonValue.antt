-- ===== src/System/JsonValue.antt =====
-- JSON values as Python has them after `json.loads`: dicts keep the order of their entries. Numbers are
-- integers; the program reads no fraction.
use Prim.Native.String.{[], ◌∷◌}
use mimi_agent.Base.{
  zero, String, ◌<>◌, Bool, true, false, Option, none, some, List, ◌==◌, string_eq, if◌then◌else◌,
}
use mimi_agent.Base.Dict.{Dict}
use mimi_agent.Base.Exec.{Error, Result, ok, err}
use mimi_agent.Str.{is_nonempty}
use mimi_agent.Scheduler.Number.{ℤ, pos, int_of}

mutual
  pub data Value : Type 0 where
    null : Value
    flag : Bool → Value
    number : ℤ → Value
    text : String → Value
    array : Values → Value
    object : Fields → Value

  pub data Values : Type 0 where
    end : Values
    item : Value → Values → Values

  pub data Fields : Type 0 where
    done : Fields
    field : String → Value → Fields → Fields

abbrev pub values : List Value → Values
values List.[] = end
values (List.◌∷◌ v vs) = item v (values vs)

abbrev pub fields : Dict String Value → Fields
fields List.[] = done
fields (List.◌∷◌ (k, v) fs) = field k v (fields fs)

-- A dict display and a list display.
abbrev pub dict_of : Dict String Value → Value
dict_of entries = object (fields entries)

abbrev pub list_of : List Value → Value
list_of items = array (values items)

-- `bool(value)`
abbrev pub truthy : Value → Bool
truthy null = false
truthy (flag b) = b
truthy (number (pos zero)) = false
truthy (number z) = true
truthy (text s) = is_nonempty s
truthy (array end) = false
truthy (array vs) = true
truthy (object done) = false
truthy (object fs) = true

unfoldable pub find_field : String → Fields → Option Value
find_field key done = none
find_field key (field k v fs) = if key == k then some v else find_field key fs

abbrev pub attribute_error : Error
attribute_error = record { kind = "AttributeError"; message = "object has no attribute 'get'" }

abbrev pub type_error : String → Error
type_error message = record { kind = "TypeError"; message = message }

-- `value.get(key)`: only a dict has the method.
unfoldable pub get : String → Value → Result (Option Value)
get key (object fs) = ok (find_field key fs)
get key v = err attribute_error

-- `found or default`
abbrev pub found_or : Option Value → Value → Value
found_or none default = default
found_or (some v) default = if truthy v then v else default

unfoldable pub key_texts : Fields → List Value
key_texts done = List.[]
key_texts (field k v fs) = List.◌∷◌ (text k) (key_texts fs)

unfoldable pub characters : String → List Value
characters [] = List.[]
characters (c ∷ s) = List.◌∷◌ (text (c ∷ [])) (characters s)

unfoldable pub items_of : Values → List Value
items_of end = List.[]
items_of (item v vs) = List.◌∷◌ v (items_of vs)

-- `for x in value`
unfoldable pub iterate : Value → Result (List Value)
unfolding key_texts characters items_of
iterate (array vs) = ok (items_of vs)
iterate (object fs) = ok (key_texts fs)
iterate (text s) = ok (characters s)
iterate v = err (type_error "object is not iterable")

abbrev pub invalid_literal : String → Error
invalid_literal s = record {
  kind = "ValueError";
  message = "invalid literal for int() with base 10: " <> s;
}

abbrev pub int_or_error : String → Option ℤ → Result ℤ
int_or_error s none = err (invalid_literal s)
int_or_error s (some z) = ok z

-- `int(value)`
unfoldable pub int_value : Value → Result ℤ
unfolding int_of
int_value (number z) = ok z
int_value (flag true) = ok (pos 1)
int_value (flag false) = ok (pos 0)
int_value (text s) = int_or_error s (int_of s)
int_value v = err (type_error "int() argument must be a string or a number")

-- `isinstance(value, dict)`
abbrev pub is_dict : Value → Bool
is_dict (object fs) = true
is_dict v = false
