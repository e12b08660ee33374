-- ===== src/Json.antt =====
-- The values that Go's encoding/json puts into an `interface{}` and a `map[string]interface{}`,
-- with the type assertions that the service makes on them. Decoding itself is not modelled.
use nc_kyutai_live_transcrip.Prelude.{
  Bool, Option, String, false, if◌then◌else◌, negsuc, none, not, pos, some, str_eq, ℕ, ℤ, ◌&&◌, ◌-◌,
  ◌==◌,
}

-- A finite `float64`, by its sign, its integer part and whether a fraction is left.
pub record Double : Type 0 where
  pub negative : Bool
  pub whole : ℕ
  pub has_fraction : Bool

-- `x == 0`
abbrev pub double_is_zero : Double → Bool
double_is_zero d = (d.whole == 0) && not d.has_fraction

-- `x > 0`
abbrev pub double_is_positive : Double → Bool
double_is_positive d = not d.negative && not (double_is_zero d)

-- `int(x)`, which cuts the fraction off.
abbrev pub double_to_int : Double → ℤ
double_to_int d = if d.negative && not (d.whole == 0) then negsuc (d.whole - 1) else pos d.whole

-- `int` values come from Go code only.
mutual
  pub data Value : Type 0 where
    null : Value
    bool : Bool → Value
    number : Double → Value
    int : ℤ → Value
    string : String → Value
    array : Values → Value
    object : Fields → Value

  pub data Values : Type 0 where
    nil : Values
    cons : Value → Values → Values

  pub data Fields : Type 0 where
    end : Fields
    field : String → Value → Fields → Fields

-- `v, ok := m[k]`
unfoldable pub get_field : String → Fields → Option Value
get_field k end = none
get_field k (field j v rest) = if str_eq j k then some v else get_field k rest

-- `v, ok := m[k].(string)`
abbrev pub as_string : Option Value → Option String
as_string (some (string s)) = some s
as_string _ = none

-- `v, _ := m[k].(string)`
abbrev pub string_or_empty : Option Value → String
string_or_empty (some (string s)) = s
string_or_empty _ = ""

-- `v, _ := m[k].(bool)`
abbrev pub is_true : Option Value → Bool
is_true (some (bool b)) = b
is_true _ = false

-- `v, ok := m[k].(float64)`
abbrev pub as_double : Option Value → Option Double
as_double (some (number d)) = some d
as_double _ = none

-- `v, ok := m[k].(map[string]interface{})`
abbrev pub as_object : Option Value → Option Fields
as_object (some (object fs)) = some fs
as_object _ = none
