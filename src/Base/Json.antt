-- ===== src/Base/Json.antt =====
-- `serde_json::Value` and its accessors. A number is its text; an object holds each name once, as the parser
-- leaves it.
use Prim.Native.Nat.{ℕ, ◌+◌, ◌-◌, ◌*◌}
use mathlib.Core.Bool.{Bool, not, ◌&&◌}
use mathlib.Core.Option.{Option, none, some}
use mathlib.Core.List.{List, [], ◌∷◌}
use moesegfault_indentity.Base.Tests.{ltb, ◌==◌, if◌then◌else◌}
use moesegfault_indentity.Base.Lists.{all}
use moesegfault_indentity.Base.Int.{ℤ, pos, negsuc}
use moesegfault_indentity.Base.Text.{Text, eq_text, is_empty, is_ascii_digit}

mutual
  pub data Json : Type 0 where
    null : Json
    boolean : Bool → Json
    number : Text → Json
    string : Text → Json
    array : Elements → Json
    object : Members → Json

  pub data Elements : Type 0 where
    done : Elements
    element : Json → Elements → Elements

  pub data Members : Type 0 where
    closed : Members
    member : Text → Json → Members → Members

abbrev pub find_member : Text → Members → Option Json
find_member name closed = none
find_member name (member k v ms) =
    let rest = find_member name ms in if eq_text k name then some v else rest

-- `Value::get` by a name
abbrev pub get_field : Text → Json → Option Json
get_field name (object ms) = find_member name ms
get_field name _ = none

abbrev pub as_str : Json → Option Text
as_str (string s) = some s
as_str _ = none

-- `get(name).and_then(Value::as_str)`
abbrev pub str_of : Option Json → Option Text
str_of none = none
str_of (some v) = as_str v

abbrev pub str_field : Text → Json → Option Text
str_field name v = str_of (get_field name v)

abbrev pub elements : Elements → List Json
elements done = []
elements (element v es) = v ∷ elements es

abbrev read_digits : ℕ → Text → ℕ
read_digits acc [] = acc
read_digits acc (c ∷ s) = read_digits (acc * 10 + (c - b'0')) s

abbrev all_digits : Text → Bool
all_digits s = not (is_empty s) && all is_ascii_digit s

abbrev natural : Text → Option ℤ
natural s =
    if all_digits s && ltb (read_digits 0 s) 9223372036854775808
    then some (pos (read_digits 0 s))
    else none

-- `-0` is a float.
abbrev negative : Text → Option ℤ
negative s =
    if all_digits s && ltb 0 (read_digits 0 s) && ltb (read_digits 0 s) 9223372036854775809
    then some (negsuc (read_digits 0 s - 1))
    else none

abbrev integer_text : Text → Option ℤ
integer_text [] = none
integer_text (c ∷ s) = if c == b'-' then negative s else natural (c ∷ s)

-- `Value::as_i64`
abbrev pub as_i64 : Json → Option ℤ
as_i64 (number n) = integer_text n
as_i64 _ = none
