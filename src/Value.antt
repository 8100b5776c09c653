-- ===== src/Value.antt =====
-- JavaScript values as they come out of JSON, with `undefined`, and the conversions that
-- dashboard/web/src uses on them: truth, `String(v)`, `v?.name`, `v?.[0]`, `Object.keys(v).length`.
-- A number is kept as the text that `String` gives for it (0 and NaN are the false ones). An object
-- lists its own properties in order; a property that the program reads by name is an own property.
pub mod Fields
use karna.Common.{String, Bool, true, false, not, ◌||◌, List, [], ◌∷◌, ◌++◌, map, if◌then◌else◌}
use karna.Text.{Text, codes, text_eq, is_empty}
use text.Mathlib.Text.{◌==◌ as name_eq}

mutual
  pub data Value : Type 0 where
    undefined null : Value
    bool : Bool → Value
    num str : Text → Value
    obj : Properties → Value
    arr : Elements → Value

  pub data Elements : Type 0 where
    no_elements : Elements
    element : Value → Elements → Elements

  pub data Properties : Type 0 where
    no_properties : Properties
    property : String → Value → Properties → Properties

unfoldable pub is_truthy : Value → Bool
unfolding text_eq
is_truthy undefined = false
is_truthy null = false
is_truthy (bool b) = b
is_truthy (num t) = not (text_eq t (codes "0") || text_eq t (codes "NaN"))
is_truthy (str s) = not (is_empty s)
is_truthy (arr xs) = true
is_truthy (obj fs) = true

-- `String(v)`; in an array `null` and `undefined` print as the empty text.
unfoldable mutual
  pub to_text : Value → Text
  to_text undefined = codes "undefined"
  to_text null = codes "null"
  to_text (bool b) = if b then codes "true" else codes "false"
  to_text (num t) = t
  to_text (str s) = s
  to_text (arr xs) = join_elements xs
  to_text (obj fs) = codes "[object Object]"

  pub join_elements : Elements → Text
  join_elements no_elements = []
  join_elements (element v no_elements) = element_text v
  join_elements (element v (element w ws)) =
      element_text v ++ (codes "," ++ join_elements (element w ws))

  pub element_text : Value → Text
  element_text undefined = []
  element_text null = []
  element_text (bool b) = if b then codes "true" else codes "false"
  element_text (num t) = t
  element_text (str s) = s
  element_text (arr xs) = join_elements xs
  element_text (obj fs) = codes "[object Object]"

-- `String(v || "")`
unfoldable pub text_or_empty : Value → Text
unfolding is_truthy to_text
text_or_empty v = if is_truthy v then to_text v else []

unfoldable pub get_field : String → Properties → Value
get_field name no_properties = undefined
get_field name (property k v fs) = if name_eq k name then v else get_field name fs

-- `v?.name`
unfoldable pub get : String → Value → Value
unfolding get_field
get name (obj fs) = get_field name fs
get name _ = undefined

-- `v?.[0]`, whose own properties alone are read
unfoldable pub first : Value → Value
first (arr (element v vs)) = v
first _ = undefined

-- The items of an array that the program builds, and the array of a list.
abbrev pub to_elements : List Value → Elements
to_elements [] = no_elements
to_elements (v ∷ vs) = element v (to_elements vs)

abbrev pub elements : Elements → List Value
elements no_elements = []
elements (element v vs) = v ∷ elements vs

-- `object[field] = value`
unfoldable pub set_field : String → Value → Properties → Properties
set_field field value no_properties = property field value no_properties
set_field field value (property k v fs) =
    let rest = set_field field value fs in
    if name_eq k field then property k value fs else property k v rest

-- `v ?? null`
abbrev pub or_null : Value → Value
or_null undefined = null
or_null v = v

-- `{ ...v }`, for an object or a value without properties of its own
abbrev pub spread : Value → Properties
spread (obj fs) = fs
spread _ = no_properties

-- `Array.isArray(v) ? v : []`
abbrev pub items_of : Value → Elements
items_of (arr vs) = vs
items_of _ = no_elements

-- `delete object[field]`
unfoldable pub delete_field : String → Properties → Properties
delete_field field no_properties = no_properties
delete_field field (property k v fs) =
    let rest = delete_field field fs in if name_eq k field then rest else property k v rest

-- An array of texts.
abbrev pub texts : List Text → Value
texts ts = arr (to_elements (map str ts))

-- `v && typeof v === "object"`
abbrev pub is_object : Value → Bool
is_object undefined = false
is_object null = false
is_object (bool b) = false
is_object (num t) = false
is_object (str t) = false
is_object (obj fs) = true
is_object (arr vs) = true
