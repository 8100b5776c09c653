-- ===== src/Demo/Clone.antt =====
-- demo.js, line 11: `clone`, which prints a value as JSON and reads it again.
use karna.Common.{Option, none, some, ◌||◌, if◌then◌else◌}
use karna.Text.{codes, text_eq}
use karna.Value.{
  Value, undefined, null, bool, num, str, arr, obj, Elements, no_elements, element, Properties,
  no_properties, property,
}

-- What JSON keeps of a value: a number that is not finite is null, and so is an `undefined` item of an array,
-- while an `undefined` property is left out. At the top, `undefined` stays.
abbrev pub or_null_item : Value → Value
or_null_item undefined = null
or_null_item v = v

abbrev pub unless_undefined : Value → (Value → Properties) → Properties → Properties
unless_undefined undefined f rest = rest
unless_undefined v f rest = f v

unfoldable mutual
  unfolding text_eq

  pub json_value : Value → Value
  json_value undefined = undefined
  json_value null = null
  json_value (bool b) = bool b
  json_value (num t) =
      if text_eq t (codes "NaN") || text_eq t (codes "Infinity") || text_eq t (codes "-Infinity")
      then null
      else num t
  json_value (str t) = str t
  json_value (arr vs) = arr (json_elements vs)
  json_value (obj fs) = obj (json_properties fs)

  pub json_elements : Elements → Elements
  json_elements no_elements = no_elements
  json_elements (element v vs) = element (or_null_item (json_value v)) (json_elements vs)

  pub json_properties : Properties → Properties
  json_properties no_properties = no_properties
  json_properties (property k v fs) =
      unless_undefined (json_value v) (λ w. property k w (json_properties fs)) (json_properties fs)

-- `clone(value)`; `undefined` prints as no text, on which `JSON.parse` throws.
unfoldable pub clone : Value → Option Value
unfolding json_value
clone undefined = none
clone v = some (json_value v)
